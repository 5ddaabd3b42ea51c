-- ===== src/Gui/Events.antt =====
-- The queue of mouse events of vga_gui.c: `GuiQueueMouseEvent`, `GuiGetMouseEvent` and the part of
-- `GuiInit` that empties the queues.
use system_operative_edit.Base.{
  ℕ, suc, ◌+◌, ◌-◌, ◌%◌, ◌<◌, ◌≡◌, inl, inr, true, false, Option, none, some, List, arith, ltb,
  ◌==◌, if◌then◌else◌, Bool-cases, update, length,
}
use system_operative_edit.Gui.Circular.{window, length-window, window-put}
use system_operative_edit.Gui.Fifo

abbrev pub mouse_queue_size : ℕ
mouse_queue_size = 32

-- `GUI_MOUSE_EVENT`; the coordinates are those of the mouse driver, which are not negative.
pub record MouseEvent : Type 0 where
  pub x : ℕ
  pub y : ℕ
  pub buttons : ℕ

-- `g_mouse_queue`, `g_mouse_head` and `g_mouse_tail`.
pub record Events : Type 0 where
  pub queue : ℕ → MouseEvent
  pub head : ℕ
  pub tail : ℕ

unfoldable pub reset : Events → Events
reset q = record q { head = 0; tail = 0 }

unfoldable pub queue_mouse_event : (x y buttons : ℕ) → Events → Events
queue_mouse_event x y buttons q =
    let next = (q.head + 1) % mouse_queue_size in
    if next == q.tail then q else record q {
      queue = update q.queue q.head (record { x = x; y = y; buttons = buttons });
      head = next;
    }

-- The result -1 is `none`, and 0 comes with the event.
unfoldable pub get_mouse_event : Events → Option MouseEvent × Events
get_mouse_event q =
    if q.head == q.tail
    then (none, q)
    else (some (q.queue q.tail), record q { tail = (q.tail + 1) % mouse_queue_size })

abbrev pub pending : Events → ℕ
pending q = (q.head + mouse_queue_size - q.tail) % mouse_queue_size

-- The events that wait, oldest first.
abbrev pub events_of : Events → List MouseEvent
events_of q = window mouse_queue_size q.queue q.tail (pending q)

pub record IsReady (q : Events) : Type 0 where
  pub head_in : q.head < mouse_queue_size
  pub tail_in : q.tail < mouse_queue_size

pub queue_mouse_event-IsReady :
    (q : Events) (x y b : ℕ) → IsReady q → IsReady (queue_mouse_event x y b q)
unfolding queue_mouse_event
queue_mouse_event-IsReady q x y b v = ground arith

pub get_mouse_event-IsReady : (q : Events) → IsReady q → IsReady (get_mouse_event q).1
unfolding get_mouse_event
get_mouse_event-IsReady q v = ground arith

-- `GuiQueueMouseEvent` appends the event, and drops it when 31 events wait already.
pub queue_mouse_event-put :
    (q : Events) (x y b : ℕ)
    → IsReady q
    → events_of (queue_mouse_event x y b q)
      ≡ Fifo.put 31 (events_of q) (record { x = x; y = y; buttons = b })
unfolding queue_mouse_event Fifo.put
queue_mouse_event-put q x y b v = elim (Bool-cases ((q.head + 1) % mouse_queue_size == q.tail)) [
  | inl full ↦
      let size : ltb (length (events_of q)) 31 ≡ false =
        ground (arith, length-window mouse_queue_size q.queue q.tail (pending q)) in
      rw (full, size)
  | inr room ↦
      let size : ltb (length (events_of q)) 31 ≡ true =
        ground (arith, length-window mouse_queue_size q.queue q.tail (pending q)) in
      let more : ((q.head + 1) % mouse_queue_size + mouse_queue_size - q.tail) % mouse_queue_size
          ≡ suc (pending q) =
        ground arith in
      rw (room, size, more)
        (window-put mouse_queue_size q.queue (record { x = x; y = y; buttons = b }) (pending q)
          q.tail q.head v.tail_in (omega arith) (omega arith))
]

-- `GuiGetMouseEvent` takes the oldest event, and says so when none waits.
pub get_mouse_event-get :
    (q : Events)
    → IsReady q
    → let (o, q') = get_mouse_event q in (o, events_of q') ≡ Fifo.get (events_of q)
unfolding get_mouse_event Fifo.get
get_mouse_event-get q v = elim (Bool-cases (q.head == q.tail)) [
  | inl same ↦ let none_left : pending q ≡ 0 = ground arith in rw (same, none_left)
  | inr other ↦
      let less : pending q
          ≡ suc ((q.head + mouse_queue_size - (q.tail + 1) % mouse_queue_size) % mouse_queue_size) =
        ground arith in
      rw (other, less)
]
