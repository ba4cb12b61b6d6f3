-- ===== src/World.antt =====
-- The state that the services share, and the monad of their methods.
mod State
mod Monad
mod Tables
mod Queues
pub mod Reads
pub mod Writes
pub mod Laws
pub mod Inserts
pub mod QueueLaws
pub use State.*
pub use Monad.*
pub use Tables.*
unfoldable pub use Queues.{find_event, save_event, update_events, insert_dead_letter}
pub use Queues.{
  find_events, count_events, find_dead_letter, find_dead_letters, count_dead_letters,
  new_dead_letter_row, remove_dead_letter,
}
