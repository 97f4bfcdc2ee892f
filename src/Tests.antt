-- ===== src/Tests.antt =====
-- Runs at concrete inputs. Here are the parameters' instances: an event is a flag, and as many bytes are
-- copied as there is room for.
pub mod Writes
pub mod Statuses
pub mod Sessions
pub mod Loops
pub mod Texts
pub mod Programs
pub mod Windows
pub mod Requests
pub mod Isolated
pub mod Answers
pub mod Wholes
pub mod Readers
use nghttp2_corosio.Base.{ℕ, ◌≡◌, refl, Bool, true, false, min}
use nghttp2_corosio.Capy.{AsyncEvent, BufferCopy}

instance abbrev pub flags : AsyncEvent Bool
flags = record {
  fresh = false;
  set = λ _. true;
  clear = λ _. false;
  is_set = λ b. b;
  is_set-fresh = refl;
  is_set-set = λ _. refl;
  is_set-clear = λ _. refl;
}

instance abbrev pub copies : BufferCopy
copies = record { copied = min; copied-eq-min = λ room size. refl }
