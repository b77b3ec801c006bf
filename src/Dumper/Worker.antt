-- ===== src/Dumper/Worker.antt =====
-- The worker thread of side_dumper_core.c with `SideDumper_InstallDumper` and
-- `SideDumper_RemoveDumper`. The list semaphore makes each change of the queue one step; the counts
-- of `semItemsQueued` and `semExitSignal` are numbers, and a `down` is possible only above zero.
mod Defs
mod Queue
mod Balance
unfoldable pub use Defs.*
pub use Balance.*
