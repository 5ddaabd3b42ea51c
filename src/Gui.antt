-- ===== src/Gui.antt =====
-- drivers/video/vga/vga_gui.c: the drawing of windows (Draw), the clock (Clock), the text console
-- (Console), and the two circular queues of the GUI. `Keyboard` is the character queue
-- that the keyboard interrupt fills, `Events` the queue of mouse events; `Circular` has the laws of
-- circular buffers that both need, and `Fifo` the bounded queue that they implement.
pub mod Circular
pub mod Fifo
pub mod Keyboard
pub mod Events
pub mod Clock
pub mod Trail
pub mod Draw
pub mod Console
mod Tests
