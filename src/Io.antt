-- ===== src/Io.antt =====
-- drivers/framework/io_manager.c and device.c: drivers, devices and their names. A pointer to an object is
-- its address and NULL is 0; objects are given by functions of their address. Allocation is the
-- heap's of lib/memory.c.
pub mod Compare
pub mod Create
mod Tests
use system_operative_edit.Base.{
  ℕ, zero, suc, ◌+◌, ◌-◌, ◌*◌, ◌/◌, ◌%◌, ◌^◌, ◌≤◌, ◌<◌, min, max, bit_and, bit_or, bit_xor, ◌≡◌,
  refl, sym, ap, ◌∙◌, fun_ext, ◌≢◌, ◌↔◌, ◌⊎◌, inl, inr, Bool, true, false, not, ◌&&◌, ◌||◌, Option,
  none, some, List, [], ◌∷◌, ◌++◌, map, arith, ltb, leb, ◌==◌, if◌then◌else◌, Bool-cases,
  Option-cases, ltb→lt, lt→ltb, leb→le, ==_iff, add32, sub32, update, length, get_elem?, get_or,
  last_from, length-append, last_from-append, has, Distinct, has-append, Distinct-append,
}
use system_operative_edit.Libc.{Heap, malloc, free, memset}
use system_operative_edit.Base.Int.{ℤ, pos, negsuc}

-- `UNICODE_STRING`: the length counts bytes; the buffer holds 16-bit characters, NULL is `none`.
pub record UnicodeString : Type 0 where
  pub length : ℕ
  pub maximum_length : ℕ
  pub buffer : Option (ℕ → ℕ)

pub record Device : Type 0 where
  pub driver_object : ℕ
  pub next_device : ℕ
  pub device_name : UnicodeString
  pub device_extension : ℕ
  pub device_type : ℕ
  pub characteristics : ℕ

pub record Driver : Type 0 where
  pub driver_name : UnicodeString
  pub device_object : ℕ
  pub next_driver : ℕ

-- The objects, the global list of drivers, the heap, and the bytes of its blocks.
pub record Io : Type 0 where
  pub heap : Heap
  pub memory : ℕ → ℕ
  pub drivers : ℕ → Driver
  pub devices : ℕ → Device
  pub driver_list : ℕ
  pub driver_count : ℕ
  pub initialized : Bool

-- `NTSTATUS`
pub data Status : Type 0 where
  success invalid_parameter insufficient_resources device_does_not_exist failure : Status

-- `NT_SUCCESS`
abbrev pub is_success : Status → Bool
is_success success = true
is_success _ = false

-- The sizes of DRIVER_OBJECT and DEVICE_OBJECT.
pub record Sizes : Type 0 where
  pub driver_size : ℕ
  pub device_size : ℕ

unfoldable pub io_init_system : Io → Io
io_init_system io =
    if io.initialized
    then io
    else record io { driver_list = 0; driver_count = 0; initialized = true }

-- The loop of `RtlCompareUnicodeString` over `r` characters from `i` on; 0 when all are equal.
unfoldable pub compare_chars : (r i : ℕ) → (b1 b2 : ℕ → ℕ) → ℤ
compare_chars zero i b1 b2 = pos 0
compare_chars (suc r) i b1 b2 =
    let rest = compare_chars r (i + 1) b1 b2 in
    if not (b1 i == b2 i) then (if ltb (b1 i) (b2 i) then negsuc 0 else pos 1) else rest

-- The comparison of two lengths, when the shorter string begins the longer one.
unfoldable pub compare_lengths : ℕ → ℕ → ℤ
compare_lengths len1 len2 =
    if len1 == len2 then pos 0 else if ltb len1 len2 then negsuc 0 else pos 1

abbrev pub is_zero : ℤ → Bool
is_zero (pos zero) = true
is_zero _ = false

unfoldable pub compare_buffers : (len1 len2 : ℕ) → (b1 b2 : ℕ → ℕ) → ℤ
compare_buffers len1 len2 b1 b2 =
    let minlen = if ltb len1 len2 then len1 else len2 in
    let c = compare_chars minlen 0 b1 b2 in if is_zero c then compare_lengths len1 len2 else c

-- `RtlCompareUnicodeString` of strings that are not NULL.
unfoldable pub compare_names : (o1 o2 : Option (ℕ → ℕ)) → (len1 len2 : ℕ) → ℤ
compare_names none none len1 len2 = pos 0
compare_names none (some b2) len1 len2 = negsuc 0
compare_names (some b1) none len1 len2 = pos 1
compare_names (some b1) (some b2) len1 len2 = compare_buffers (len1 / 2) (len2 / 2) b1 b2

unfoldable pub compare_unicode_string : UnicodeString → UnicodeString → ℤ
compare_unicode_string s1 s2 = compare_names s1.buffer s2.buffer s1.length s2.length

abbrev pub no_name : UnicodeString
no_name = record { length = 0; maximum_length = 0; buffer = none }

-- The name of a new device: none without a name or a buffer.
unfoldable pub name_of : Option UnicodeString → UnicodeString
name_of none = no_name
name_of (some s) = elim s.buffer [ none ↦ no_name | some b ↦ s ]

-- The extension of a new device: its address, or 0 when none is asked for; `none` when the heap is full.
unfoldable pub alloc_extension : ℕ → Heap → Option ℕ × Heap
alloc_extension size h =
    let (p, h') = malloc size h in
    if size == 0 then (some 0, h) else if p == 0 then (none, h') else (some p, h')

-- What `IoCreateDevice` does after its allocations: the fields, and the device in front of the
-- driver's list.
unfoldable pub link_device :
    (driver device extension : ℕ) → UnicodeString → (type characteristics : ℕ) → Io → Io
link_device driver device extension name type characteristics io = record io {
  devices = update io.devices device (record {
    driver_object = driver;
    next_device = (io.drivers driver).device_object;
    device_name = name;
    device_extension = extension;
    device_type = type;
    characteristics = characteristics;
  });
  drivers = update io.drivers driver (record (io.drivers driver) { device_object = device });
}

-- What follows the allocation of the extension: without one the device is given back.
unfoldable pub place_device :
    (extension : Option ℕ) (extension_size driver device : ℕ)
    → UnicodeString
    → (type characteristics : ℕ) → Io
    → Status × ℕ × Io
place_device none extension_size driver device name type characteristics io =
    (Status.insufficient_resources, 0, record io { heap = free device io.heap })
place_device (some e) extension_size driver device name type characteristics io = (
  Status.success,
  device,
  link_device driver device e name type characteristics
      (record io { memory = memset e 0 extension_size io.memory }),
)

-- `IoCreateDevice`, with the address of the device; `out` says whether there is a place for it. The fields of
-- the new device are all set, and its bytes are cleared before.
unfoldable pub create_device :
    Sizes
    → (driver extension_size : ℕ) → Option UnicodeString
    → (type characteristics : ℕ) → (out : Bool) → Io
    → Status × ℕ × Io
create_device sizes driver extension_size name type characteristics out io =
    let (device, h1) = malloc sizes.device_size io.heap in
    let (extension, h2) = alloc_extension extension_size h1 in
    let cleared : Io = record io {
      heap = h2;
      memory = memset device 0 sizes.device_size io.memory;
    } in
    if (driver == 0) || not out
    then (Status.invalid_parameter, 0, io)
    else if device == 0
    then (Status.insufficient_resources, 0, record io { heap = h1 })
    else place_device extension extension_size driver device (name_of name) type characteristics
        cleared

-- The loop of `IoDeleteDevice` from the pointer `current` on, on fuel: the devices afterwards and
-- what the pointer becomes.
unfoldable pub unlink_device :
    (fuel : ℕ) → (ℕ → Device) → (current target : ℕ) → Option ((ℕ → Device) × ℕ)
unlink_device zero ds current target = none
unlink_device (suc f) ds current target =
    let rest = unlink_device f ds (ds current).next_device target in
    if current == 0
    then some (ds, 0)
    else if current == target
    then some (ds, (ds target).next_device)
    else elim rest [
      | none ↦ none
      | some (ds', q) ↦
          some (update ds' current (record (ds' current) { next_device = q }), current)
    ]

-- `IoDeleteDevice`; the devices of a driver are fewer than the fuel.
unfoldable pub delete_device : (fuel device : ℕ) → Io → Option Io
delete_device fuel device io =
    let driver = (io.devices device).driver_object in
    let h1 =
      if (io.devices device).device_extension == 0
      then io.heap
      else free (io.devices device).device_extension io.heap in
    let freed = record io { heap = free device h1 } in
    if device == 0
    then some io
    else if driver == 0
    then some freed
    else elim (unlink_device fuel io.devices (io.drivers driver).device_object device) [
      | none ↦ none
      | some (ds, q) ↦ some (record freed {
        devices = ds;
        drivers = update io.drivers driver (record (io.drivers driver) { device_object = q });
      })
    ]

-- `IoCreateDriver` of a name; the driver's initialisation takes the new driver's address.
unfoldable pub create_driver :
    Sizes → Option UnicodeString → Option (ℕ → Io → Status × Io) → Io → Status × Io
create_driver sizes none driver_init io = (Status.invalid_parameter, io)
create_driver sizes (some name) none io = (Status.invalid_parameter, io)
create_driver sizes (some name) (some driver_init) io =
    let (driver, h1) = malloc sizes.driver_size io.heap in
    let io1 = record io {
      heap = h1;
      drivers =
          update io.drivers driver
            (record { driver_name = name; device_object = 0; next_driver = 0 });
    } in
    let (status, io2) = driver_init driver io1 in
    if driver == 0
    then (Status.insufficient_resources, record io { heap = h1 })
    else if is_success status
    then (
      Status.success,
      record io2 {
        drivers =
            update io2.drivers driver
              (record (io2.drivers driver) { next_driver = io2.driver_list });
        driver_list = driver;
        driver_count = io2.driver_count + 1;
      },
    )
    else (status, record io2 { heap = free driver io2.heap })

-- Both names have a buffer, and the names are equal.
unfoldable pub same_name : (o1 o2 : Option (ℕ → ℕ)) → (len1 len2 : ℕ) → Bool
same_name none o2 len1 len2 = false
same_name (some b1) none len1 len2 = false
same_name (some b1) (some b2) len1 len2 = is_zero (compare_names (some b1) (some b2) len1 len2)

-- The inner loop of `IoGetDeviceObjectPointer`, on fuel: the device, or 0.
unfoldable pub find_device : (fuel : ℕ) → (ℕ → Device) → UnicodeString → (device : ℕ) → Option ℕ
find_device zero ds name device = none
find_device (suc f) ds name device =
    let d = ds device in
    let rest = find_device f ds name d.next_device in
    if device == 0
    then some 0
    else if same_name d.device_name.buffer name.buffer d.device_name.length name.length
    then some device
    else rest

-- The outer loop.
unfoldable pub find_in_drivers : (fuel : ℕ) → Io → UnicodeString → (driver : ℕ) → Option ℕ
find_in_drivers zero io name driver = none
find_in_drivers (suc f) io name driver =
    let rest = find_in_drivers f io name (io.drivers driver).next_driver in
    if driver == 0
    then some 0
    else elim (find_device f io.devices name (io.drivers driver).device_object) [
      | none ↦ none
      | some zero ↦ rest
      | some (suc d) ↦ some (suc d)
    ]

-- The first loop of `IoDeleteDriver`, from a device on.
unfoldable pub delete_devices : (fuel device : ℕ) → Io → Option Io
delete_devices zero device io = none
delete_devices (suc f) device io =
    let next = (io.devices device).next_device in
    if device == 0 then some io else elim (delete_device (suc f) device io) [
      | none ↦ none
      | some io' ↦ delete_devices f next io'
    ]

-- Its second loop: the drivers afterwards, what the pointer `current` becomes, and whether the driver was
-- found.
unfoldable pub unlink_driver :
    (fuel : ℕ) → (ℕ → Driver) → (current target : ℕ) → Option ((ℕ → Driver) × ℕ × Bool)
unlink_driver zero ds current target = none
unlink_driver (suc f) ds current target =
    let rest = unlink_driver f ds (ds current).next_driver target in
    if current == 0
    then some (ds, 0, false)
    else if current == target
    then some (ds, (ds target).next_driver, true)
    else elim rest [
      | none ↦ none
      | some (ds', q, found) ↦
          some (update ds' current (record (ds' current) { next_driver = q }), current, found)
    ]

-- `IoDeleteDriver`, with the driver's unload routine, or `none` for NULL.
unfoldable pub delete_driver : (fuel driver : ℕ) → Option (ℕ → Io → Io) → Io → Option Io
delete_driver fuel driver unload io =
    if driver == 0
    then some io
    else elim (delete_devices fuel (io.drivers driver).device_object io) [
      | none ↦ none
      | some io1 ↦ elim (unlink_driver fuel io1.drivers io1.driver_list driver) [
        | none ↦ none
        | some (ds, q, found) ↦
            let io2 = record io1 {
              drivers = ds;
              driver_list = q;
              driver_count = if found then io1.driver_count - 1 else io1.driver_count;
            } in
            let io3 : Io = elim unload [ none ↦ io2 | some u ↦ u driver io2 ] in
            some (record io3 { heap = free driver io3.heap })
      ]
    ]
