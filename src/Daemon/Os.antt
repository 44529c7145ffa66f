-- ===== src/Daemon/Os.antt =====
-- What the daemon takes from its surroundings: the settings, the operating system, and the effects
-- that it leaves there. Process handles, the file system and the clock are not the program's code.
-- The answers of the system may depend on everything that the daemon has done so far.
use pueue.Base.{ℕ, ◌≡◌, refl, String, ℤ, Bool, Option, List, [], ◌∷◌, OrdMap, ◌⊎◌, inl, inr}
use pueue.Task.{Task}
use pueue.State.{State}
use pueue.Message.{Signal}

-- A handle of a child process (`command_group::GroupChild`, `std::process::Child`).
abbrev pub Child : Type 0
Child = ℕ

-- process_helper/mod.rs.
pub data ProcessAction : Type 0 where
  pause resume : ProcessAction

-- The unix signals that the daemon sends.
pub data UnixSignal : Type 0 where
  sigint sigkill sigterm sigcont sigstop : UnixSignal

unfoldable pub signal_of_action : ProcessAction → UnixSignal
signal_of_action pause = sigstop
signal_of_action resume = sigcont

unfoldable pub signal_from_internal : Signal → UnixSignal
signal_from_internal Signal.sig_kill = sigkill
signal_from_internal Signal.sig_int = sigint
signal_from_internal Signal.sig_term = sigterm
signal_from_internal Signal.sig_cont = sigcont
signal_from_internal Signal.sig_stop = sigstop

-- The settings that the daemon's state handling reads.
pub record Settings : Type 0 where
  pub pause_group_on_failure : Bool
  pub pause_all_on_failure : Bool
  pub callback : Option String

-- What the daemon did to its surroundings. A signal is recorded with the child that it went to.
pub data Effect : Type 0 where
  saved : State → Effect
  save_failed : Effect
  signalled : UnixSignal → Child → Effect
  signal_refused : UnixSignal → Child → Effect
  killed_child : Child → Effect
  spawned : (task_id : ℕ) → Child → Effect
  spawn_refused : (task_id : ℕ) → Effect
  called_back : Task → Effect
  logs_cleaned : (task_id : ℕ) → Effect
  sent_input : Child → String → Effect

-- The newest effect first.
abbrev pub Trace : Type 0
Trace = List Effect

-- The answer of `try_wait`.
pub data Wait : Type 0 where
  wait_error still_running exited : Wait

-- The operating system, the template engine of callbacks and the alias file.
pub record Os : Type 0 where
  pub now : Trace → ℕ
  pub save_succeeds : Trace → Bool
  pub log_files_open : Trace → ℕ → Bool
  pub shell_command_renders : String → Bool
  -- A new child process, or the text of the error.
  pub spawn : Trace → (command path : String) → OrdMap String String → Child ⊎ String
  pub signal_succeeds : Trace → UnixSignal → Child → Bool
  pub try_wait : Trace → Child → Wait
  -- Whether `wait` succeeds after the end of a process, and its exit code; `none` stands for a
  -- process that a signal ended.
  pub wait_succeeds : Trace → Child → Bool
  pub exit_code : Child → Option ℤ
  -- The child of a callback that could be rendered and spawned.
  pub spawn_callback : Trace → String → Task → Option Child
  -- A write to the standard input of a child.
  pub input_succeeds : Trace → Child → String → Bool
  -- The bytes of a task's log file, where it can be opened, and their compression by snap.
  pub log_content : Trace → ℕ → Option (List ℕ)
  pub compress : List ℕ → List ℕ
  pub insert_alias : String → String
  -- The decimal print of a number.
  pub show_number : ℕ → String

-- A run of code that may panic. A panic poisons the lock on the state and ends the daemon's work.
pub data Outcome {ℓ} (A : Type ℓ) : Type ℓ where
  finished : A → Outcome A
  panicked : Outcome A

infixl 5 ◌>>=◌
abbrev pub ◌>>=◌ {ℓ κ} : {A : Type ℓ} {B : Type κ} → Outcome A → (A → Outcome B) → Outcome B
finished a >>= f = f a
panicked >>= f = panicked

pub Outcome-cases {ℓ} : {A : Type ℓ} (o : Outcome A) → (o ≡ panicked) ⊎ ((a : A) × (o ≡ finished a))
Outcome-cases panicked = inl refl
Outcome-cases (finished a) = inr (a, refl)

pub finished_injective {ℓ} : {A : Type ℓ} {a b : A} → finished a ≡ finished b → a ≡ b
finished_injective e = cc

-- Inversion of a run that ends.
pub >>=-eq-finished {ℓ κ} :
    {A : Type ℓ} {B : Type κ} (m : Outcome A) (f : A → Outcome B) {b : B}
    → (m >>= f) ≡ finished b
    → (a : A) × (m ≡ finished a) × (f a ≡ finished b)
>>=-eq-finished (finished a) f e = (a, refl, e)
>>=-eq-finished panicked f e = cc

-- `for x in xs { s = f(s, x) }`.
unfoldable pub for_each {ℓ κ} :
    {A : Type ℓ} {S : Type κ} → List A → (S → A → Outcome S) → S → Outcome S
for_each [] f s = finished s
for_each (x ∷ xs) f s = f s x >>= λ s'. for_each xs f s'

-- The same for a body that cannot panic.
unfoldable pub for_all {ℓ κ} : {A : Type ℓ} {S : Type κ} → List A → (S → A → S) → S → S
for_all [] f s = s
for_all (x ∷ xs) f s = for_all xs f (f s x)
