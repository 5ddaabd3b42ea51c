-- ===== src/Io/Tests.antt =====
-- Runs of the I/O manager.
use system_operative_edit.Libc.Malloc.{IsValid}
use system_operative_edit.Base.{refl, arith, true, none}
use system_operative_edit.Io.{Io, Sizes, create_device, no_name}
use system_operative_edit.Io.Create.{Outcome, create_device-Outcome}

abbrev manager : Io
manager = record {
  heap = record { current = 0x00200000; limit = 0x00800000 };
  memory = λ a. 7;
  drivers = λ p. record { driver_name = no_name; device_object = 0; next_driver = 0 };
  devices = λ p. record {
    driver_object = 0;
    next_device = 0;
    device_name = no_name;
    device_extension = 0;
    device_type = 0;
    characteristics = 0;
  };
  driver_list = 0x00200100;
  driver_count = 1;
  initialized = true;
}

abbrev sizes : Sizes
sizes = record { driver_size = 152; device_size = 40 }

manager-IsValid : IsValid manager.heap
manager-IsValid = record {
  start = omega arith;
  aligned = refl;
  room = omega arith;
  limit = omega arith;
}

create_device-Outcome_example :
    Outcome sizes 0x00200100 16 none 8 0 true manager
      (create_device sizes 0x00200100 16 none 8 0 true manager)
create_device-Outcome_example =
    create_device-Outcome sizes 0x00200100 16 none 8 0 true manager manager-IsValid (omega arith)
