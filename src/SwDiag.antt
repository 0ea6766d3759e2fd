-- ===== src/SwDiag.antt =====
-- sw_diag.rs: the heap and the FreeRTOS tasks as Matter reports them. The calls of ESP-IDF and
-- FreeRTOS are parameters.
pub mod Names
use esp_idf_matter.Base.{
  ℕ, ◌+◌, ◌-◌, Bool, true, false, Option, none, some, List, [], ◌∷◌, ◌++◌, map, length, leb,
  if◌then◌else◌, Exec, Result, ok, err, panic,
}
use esp_idf_matter.Error.{EspError, ErrorCode, failure}
use esp_idf_matter.Netctl.Visit.{for_each}

-- A character is the list of its UTF-8 bytes.
abbrev pub Char : Type 0
Char = List ℕ

-- `TaskStatus_t`: the name as characters, unless it is not UTF-8.
pub record TaskStatus : Type 0 where
  pub task_number : ℕ
  pub task_name : Option (List Char)
  pub stack_high_water_mark : ℕ

-- `ThreadMetric` of `rs-matter`; the name is in UTF-8.
pub record ThreadMetric : Type 0 where
  pub id : ℕ
  pub name : Option (List ℕ)
  pub stack_free_current : Option ℕ
  pub stack_size : Option ℕ
  pub stack_free_minimum : Option ℕ

pub record System (W : Type 0) : Type 0 where
  -- Of the memory that `malloc` allocates from.
  pub get_free_size : W → ℕ
  pub get_total_size : W → ℕ
  pub get_minimum_free_size : W → ℕ
  pub monitor_stop : W → W
  pub monitor_start : Exec EspError W (Unit {0})
  -- Whether the build has `esp_idf_freertos_use_trace_facility`.
  pub use_trace_facility : Bool
  pub get_number_of_tasks : W → ℕ
  -- With the scheduler suspended, at most so many tasks.
  pub get_system_state : ℕ → W → List TaskStatus

abbrev pub max_name_len : ℕ
max_name_len = 8

abbrev pub extra_tasks : ℕ
extra_tasks = 4

-- `String::push` for every character until it fails.
unfoldable pub push_chars : List ℕ → List Char → List ℕ
push_chars prefix [] = prefix
push_chars prefix (ch ∷ chars) =
    let rest = push_chars (prefix ++ ch) chars in
    if leb (length prefix + length ch) max_name_len then rest else prefix

unfoldable pub name_prefix : Option (List Char) → List ℕ
unfolding push_chars
name_prefix none = []
name_prefix (some name) = push_chars [] name

unfoldable pub metric : TaskStatus → ThreadMetric
unfolding name_prefix
metric task = record {
  id = task.task_number;
  name = some (name_prefix task.task_name);
  stack_free_current = none;
  stack_size = none;
  stack_free_minimum = some task.stack_high_water_mark;
}

module _ {W : Type 0} (sys : System W) where
  unfoldable pub current_heap_free : W → ℕ
  current_heap_free w = sys.get_free_size w

  -- `saturating_sub` is the subtraction of ℕ.
  unfoldable pub current_heap_used : W → ℕ
  current_heap_used w = sys.get_total_size w - sys.get_free_size w

  unfoldable pub current_heap_high_watermark : W → ℕ
  current_heap_high_watermark w = sys.get_total_size w - sys.get_minimum_free_size w

  unfoldable pub reset_watermarks : Exec ErrorCode W (Unit {0})
  reset_watermarks w = let (r, w') = sys.monitor_start (sys.monitor_stop w) in (failed r, w')
    where
      failed : Result EspError (Unit {0}) → Result ErrorCode (Unit {0})
      failed (ok x) = ok tt
      failed (err e) = err failure
      failed panic = panic

  module _ {V : Type 0} (visit : ThreadMetric → Exec ErrorCode V (Unit {0})) where
    unfoldable pub visit_tasks : W → Exec ErrorCode V (Unit {0})
    unfolding metric for_each
    visit_tasks w =
        for_each visit
          (map metric (sys.get_system_state (sys.get_number_of_tasks w + extra_tasks) w))

    unfoldable pub thread_metrics : W → Exec ErrorCode V (Unit {0})
    unfolding visit_tasks
    thread_metrics w v = if sys.use_trace_facility then visit_tasks w v else (ok tt, v)
