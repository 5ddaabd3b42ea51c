-- ===== src/Io/Create.antt =====
-- `IoCreateDevice`.
use mathlib.Core.Path.{subst}
use system_operative_edit.Base.{
  ℕ, ◌+◌, ◌*◌, ◌/◌, ◌^◌, ◌≤◌, ◌<◌, ◌≡◌, refl, sym, ap, ◌∙◌, ◌≢◌, ◌⊎◌, inl, inr, Bool, true, false,
  not, ◌&&◌, ◌||◌, Option, none, some, arith, ltb, leb, ◌==◌, if◌then◌else◌, Bool-cases,
}
use system_operative_edit.Libc.{Heap, malloc, memset, free}
use system_operative_edit.Libc.Malloc.{IsValid, malloc_lem}
use system_operative_edit.Libc.Memory.{memset_lem}
use system_operative_edit.Io.{
  Io, Status, Sizes, UnicodeString, create_device, place_device, link_device, alloc_extension,
  name_of,
}

-- What the heap reserves for a block.
abbrev pub rounded : ℕ → ℕ
rounded size = (size + 3) / 4 * 4

-- The address lies in none of the `n` bytes from `p` on.
abbrev pub Outside : (a p n : ℕ) → Type 0
Outside a p n = (a < p) ⊎ (p + n ≤ a)

-- The device is new, at the old top of the heap, with its extension behind it.
pub record Created (sizes : Sizes) (driver size : ℕ) (name : UnicodeString) (type chars : ℕ)
    (io : Io) (device : ℕ) (io' : Io) : Type 0 where
  pub fits : io.heap.current + rounded sizes.device_size + rounded size ≤ io.heap.limit
  pub place : device ≡ io.heap.current
  pub fields : io'.devices device ≡ record {
    driver_object = driver;
    next_device = (io.drivers driver).device_object;
    device_name = name;
    device_extension = if size == 0 then 0 else device + rounded sizes.device_size;
    device_type = type;
    characteristics = chars;
  }
  pub first : (io'.drivers driver).device_object ≡ device
  pub other_devices : (d : ℕ) → d ≢ device → io'.devices d ≡ io.devices d
  pub other_drivers : (d : ℕ) → d ≢ driver → io'.drivers d ≡ io.drivers d
  pub cleared :
      (a : ℕ)
      → device + rounded sizes.device_size ≤ a
      → a < device + rounded sizes.device_size + size
      → io'.memory a ≡ 0
  pub other_bytes :
      (a : ℕ) → Outside a device (rounded sizes.device_size + size) → io'.memory a ≡ io.memory a
  pub heap_valid : IsValid io'.heap

-- No device: the objects stay, and no byte in use changes.
pub record Refused (io io' : Io) : Type 0 where
  pub drivers : io'.drivers ≡ io.drivers
  pub devices : io'.devices ≡ io.devices
  pub bytes_below : (a : ℕ) → a < io.heap.current → io'.memory a ≡ io.memory a
  pub heap_valid : IsValid io'.heap

-- The three outcomes, each with the condition under which it comes.
abbrev pub Outcome :
    Sizes
    → (driver size : ℕ) → Option UnicodeString
    → (type chars : ℕ) → (out : Bool) → Io
    → Status × ℕ × Io
    → Type 0
Outcome sizes driver size name type chars out io (status, device, io') =
    (((driver ≡ 0) ⊎ (out ≡ false))
      × (status ≡ Status.invalid_parameter)
      × (device ≡ 0)
      × (io' ≡ io))
    ⊎ ((driver ≢ 0)
        × (out ≡ true)
        × (((io.heap.limit < io.heap.current + rounded sizes.device_size + rounded size)
              × (status ≡ Status.insufficient_resources)
              × (device ≡ 0)
              × Refused io io')
            ⊎ ((status ≡ Status.success)
                × Created sizes driver size (name_of name) type chars io device io')))

-- The extension of a device behind a heap that is valid.
extension_lem :
    (size : ℕ) (h : Heap)
    → IsValid h
    → h.limit + size + 3 < 2 ^ 32
    → let (x, h') = alloc_extension size h in
      ((h.limit < h.current + rounded size) × (x ≡ none) × IsValid h')
      ⊎ ((h.current + rounded size ≤ h.limit)
          × (x ≡ some (if size == 0 then 0 else h.current))
          × IsValid h')
unfolding alloc_extension
extension_lem size h v small = elim (Bool-cases (size == 0)) [
  | inl empty ↦
      let zero_size : size ≡ 0 = ground (arith, empty) in
      rw empty (inr (omega (arith, zero_size, v.room), refl, v))
  | inr asked ↦ elim (malloc_lem size h v small) [
    | inl (fits, at, al, top, lim, v') ↦
        let real : ((malloc size h).0 == 0) ≡ false = ground (arith, at, v.start) in
        rw (asked, real) (inr (fits, ap (λ p. some p) at, v'))
    | inr (full, at, same) ↦
        let null : ((malloc size h).0 == 0) ≡ true = ground (arith, at) in
        rw (asked, null) (inl (full, refl, subst (λ g. IsValid g) (sym same) v))
  ]
]

-- Where the extension lies, and what `memset` leaves of the bytes.
abbrev extension_of : (size device dsize : ℕ) → ℕ
extension_of size device dsize = if size == 0 then 0 else device + rounded dsize

abbrev wiped : (size device dsize : ℕ) → (ℕ → ℕ) → ℕ → ℕ
wiped size device dsize m = memset (extension_of size device dsize) 0 size (memset device 0 dsize m)

wiped_inside :
    (size device dsize : ℕ) (m : ℕ → ℕ) (a : ℕ)
    → device + rounded dsize ≤ a
    → a < device + rounded dsize + size
    → wiped size device dsize m a ≡ 0
wiped_inside size device dsize m a low high =
    let asked : (size == 0) ≡ false = ground (arith, low, high) in
    let inside : (leb (device + rounded dsize) a && ltb a (device + rounded dsize + size)) ≡ true =
      ground (arith, low, high) in
    memset_lem (extension_of size device dsize) 0 size (memset device 0 dsize m) a
    ∙ rw (asked, inside) refl

wiped-Outside :
    (size device dsize : ℕ) (m : ℕ → ℕ) (a : ℕ)
    → Outside a device (rounded dsize + size)
    → wiped size device dsize m a ≡ m a
wiped-Outside size device dsize m a out =
    let first = memset_lem device 0 dsize m a in
    let apart : (leb device a && ltb a (device + dsize)) ≡ false = ground (arith, out) in
    memset_lem (extension_of size device dsize) 0 size (memset device 0 dsize m) a
    ∙ elim (Bool-cases (size == 0)) [
      | inl empty ↦
          let zero_size : size ≡ 0 = ground (arith, empty) in
          let nowhere : (leb 0 a && ltb a (0 + size)) ≡ false = ground (arith, zero_size) in
          rw (empty, nowhere) (first ∙ rw apart refl)
      | inr asked ↦
          let away : (leb (device + rounded dsize) a && ltb a (device + rounded dsize + size))
              ≡ false =
            ground (arith, out) in
          rw (asked, away) (first ∙ rw apart refl)
    ]

link_device-Created :
    (sizes : Sizes) (driver size : ℕ) (name : UnicodeString) (type chars : ℕ) (io : Io) (device : ℕ)
    (h : Heap)
    → io.heap.current + rounded sizes.device_size + rounded size ≤ io.heap.limit
    → device ≡ io.heap.current
    → IsValid h
    → Created sizes driver size name type chars io device (
        link_device driver device
          (extension_of size device sizes.device_size)
          name
          type
          chars
          (record io { heap = h; memory = wiped size device sizes.device_size io.memory }))
unfolding link_device
link_device-Created sizes driver size name type chars io device h fits at valid =
    let own : (device == device) ≡ true = ground arith in
    let same : (driver == driver) ≡ true = ground arith in
    record {
      fits = fits;
      place = at;
      fields = rw own refl;
      first = rw same refl;
      other_devices = λ d ne. let off : (d == device) ≡ false = ground (arith, ne) in rw off refl;
      other_drivers = λ d ne. let off : (d == driver) ≡ false = ground (arith, ne) in rw off refl;
      cleared = wiped_inside size device sizes.device_size io.memory;
      other_bytes = wiped-Outside size device sizes.device_size io.memory;
      heap_valid = valid;
    }

-- The two outcomes once there is a block for the device.
place_device-Outcome :
    (sizes : Sizes) (driver size : ℕ) (name : Option UnicodeString) (type chars : ℕ) (out : Bool)
    (io : Io) (device : ℕ) (h1 : Heap)
    → driver ≢ 0
    → out ≡ true
    → device ≡ io.heap.current
    → h1.current ≡ device + rounded sizes.device_size
    → h1.limit ≡ io.heap.limit
    → let (x, h) = alloc_extension size h1 in
      ((h1.limit < h1.current + rounded size) × (x ≡ none) × IsValid h)
        ⊎ ((h1.current + rounded size ≤ h1.limit)
            × (x ≡ some (if size == 0 then 0 else h1.current))
            × IsValid h)
      → Outcome sizes driver size name type chars out io (
          place_device x size driver device
            (name_of name)
            type
            chars
            (record io { heap = h; memory = memset device 0 sizes.device_size io.memory }))
unfolding place_device free
place_device-Outcome sizes driver size name type chars out io device h1 nz on at top lim
      (inl (full, none_left, valid)) =
    let h = (alloc_extension size h1).1 in
    let start : Io = record io { heap = h; memory = memset device 0 sizes.device_size io.memory } in
    subst
      (λ x.
        Outcome sizes driver size name type chars out io
          (place_device x size driver device (name_of name) type chars start))
      (sym none_left)
      (inr (
        nz,
        on,
        inl (
          omega (arith, full, at, top, lim),
          refl,
          refl,
          record {
            drivers = refl;
            devices = refl;
            bytes_below = λ a lt.
                let apart : (leb device a && ltb a (device + sizes.device_size)) ≡ false =
                  ground (arith, at, lt) in
                memset_lem device 0 sizes.device_size io.memory a ∙ rw apart refl;
            heap_valid = valid;
          },
        ),
      ))
place_device-Outcome sizes driver size name type chars out io device h1 nz on at top lim
      (inr (room, placed, valid)) =
    let h = (alloc_extension size h1).1 in
    let start : Io = record io { heap = h; memory = memset device 0 sizes.device_size io.memory } in
    let where_placed : some (if size == 0 then 0 else h1.current)
        ≡ some (extension_of size device sizes.device_size) =
      ap (λ c. some (if size == 0 then 0 else c)) top in
    subst
      (λ x.
        Outcome sizes driver size name type chars out io
          (place_device x size driver device (name_of name) type chars start))
      (sym (placed ∙ where_placed))
      (inr (
        nz,
        on,
        inr (
          refl,
          link_device-Created sizes driver size (name_of name) type chars io device h
              (omega (arith, room, at, top, lim)) at valid,
        ),
      ))

-- `IoCreateDevice` with a valid heap and sizes for which nothing wraps. Without a driver or a place for the device it
-- returns STATUS_INVALID_PARAMETER and changes nothing. Otherwise, if the device and its extension do not fit
-- together into the heap, it returns STATUS_INSUFFICIENT_RESOURCES and no device, and objects and bytes in use stay. If
-- they fit, it succeeds: the device is new, at the old top of the heap, with all its fields set, its extension
-- cleared behind it, and in front of the driver's list; other devices, drivers and bytes stay.
pub create_device-Outcome :
    (sizes : Sizes) (driver size : ℕ) (name : Option UnicodeString) (type chars : ℕ) (out : Bool)
    (io : Io)
    → IsValid io.heap
    → io.heap.limit + sizes.device_size + size + 6 < 2 ^ 32
    → Outcome sizes driver size name type chars out io
        (create_device sizes driver size name type chars out io)
unfolding create_device
create_device-Outcome sizes driver size name type chars out io valid small =
    let p = malloc sizes.device_size io.heap in
    elim (Bool-cases ((driver == 0) || not out)) [
      | inl bad ↦ rw bad (inl (ground (arith, bad), refl, refl, refl))
      | inr good ↦
          let driver_set : driver ≢ 0 = ground (arith, good) in
          let out_set : out ≡ true = ground (arith, good) in
          elim (malloc_lem sizes.device_size io.heap valid (omega (arith, small))) [
            | inr (full, at, same) ↦
                let null : (p.0 == 0) ≡ true = ground (arith, at) in
                rw (good, null)
                  (inr (
                    driver_set,
                    out_set,
                    inl (
                      omega (arith, full),
                      refl,
                      refl,
                      record {
                        drivers = refl;
                        devices = refl;
                        bytes_below = λ a lt. refl;
                        heap_valid = subst (λ g. IsValid g) (sym same) valid;
                      },
                    ),
                  ))
            | inl (fits, at, al, top, lim, valid1) ↦
                let real : (p.0 == 0) ≡ false = ground (arith, at, valid.start) in
                rw (good, real)
                  (place_device-Outcome sizes driver size name type chars out io p.0 p.1 driver_set
                    out_set at top lim (extension_lem size p.1 valid1 (omega (arith, lim, small))))
          ]
    ]
