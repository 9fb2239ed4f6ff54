-- ===== src/Main/Statuses.antt =====
-- The table of the exit statuses in main.cpp, and what it prints for it.
pub mod Table
pub mod Report
use dag_blockchain.Prelude.{
  Bool, Bytes, List, [], if◌then◌else◌, ltb, nat_eq, true, ℕ, ◌++◌, ◌==◌, ◌∷◌,
}
use dag_blockchain.Prelude.Int.{negsuc, pos, ℤ}
use mathlib.Core.List.Perm
use dag_blockchain.Bytes.Decimal.{to_string, to_string_ℤ}

-- exit_status_map.emplace(child_exited, status): the std::map is in order of the process ids, and an
-- id that is there keeps its status.
unfoldable pub emplace_status : ℕ → ℤ → List (ℕ × ℤ) → List (ℕ × ℤ)
emplace_status pid status [] = (pid, status) ∷ []
emplace_status pid status (entry ∷ table) =
    let rest = emplace_status pid status table in
    if ltb pid entry.0
    then (pid, status) ∷ entry ∷ table
    else if pid == entry.0
    then entry ∷ table
    else entry ∷ rest

-- The loop over what `wait` answers.
unfoldable pub statuses : List (ℕ × ℤ) → List (ℕ × ℤ) → List (ℕ × ℤ)
unfolding emplace_status
statuses [] table = table
statuses (ended ∷ more) table = statuses more (emplace_status ended.0 ended.1 table)

-- The macros of <sys/wait.h>, as functions of an `int`.
pub record WaitMacros : Type 0 where
  pub w_if_exited : ℤ → ℤ
  pub w_exit_status : ℤ → ℤ
  pub w_if_signaled : ℤ → ℤ
  pub w_term_sig : ℤ → ℤ

-- "PID\tSTATUS\tEXIT STATUS\n"
abbrev pub heading : Bytes
heading =
    b'P' ∷ b'I' ∷ b'D' ∷ 9 ∷ b'S' ∷ b'T' ∷ b'A' ∷ b'T' ∷ b'U' ∷ b'S' ∷ 9 ∷ b'E' ∷ b'X' ∷ b'I' ∷ b'T'
    ∷ 32 ∷ b'S' ∷ b'T' ∷ b'A' ∷ b'T' ∷ b'U' ∷ b'S' ∷ 10 ∷ []

-- "EXITED\t"
abbrev pub exited_text : Bytes
exited_text = b'E' ∷ b'X' ∷ b'I' ∷ b'T' ∷ b'E' ∷ b'D' ∷ 9 ∷ []

-- "SIGNALED\t"
abbrev pub signaled_text : Bytes
signaled_text = b'S' ∷ b'I' ∷ b'G' ∷ b'N' ∷ b'A' ∷ b'L' ∷ b'E' ∷ b'D' ∷ 9 ∷ []

-- A number as a condition.
abbrev pub is_true : ℤ → Bool
is_true (pos n) = ltb 0 n
is_true (negsuc n) = true

module _ (macros : WaitMacros) where
  -- What follows the process id and the tab. The status itself is no longer at hand where the macros
  -- of its value are called: current_status has what the macro before answered. A child that has
  -- neither exited nor been signaled gets nothing, also no end of the line.
  unfoldable pub ending : ℤ → Bytes
  ending status =
      let current_status = macros.w_if_exited status in
      if is_true current_status
      then exited_text ++ (to_string_ℤ (macros.w_exit_status current_status) ++ 10 ∷ [])
      else let current_status' = macros.w_if_signaled status in
        if is_true current_status'
        then signaled_text ++ (to_string_ℤ (macros.w_term_sig current_status') ++ 10 ∷ [])
        else []

  unfoldable pub report_entries : List (ℕ × ℤ) → Bytes
  unfolding ending
  report_entries [] = []
  report_entries (entry ∷ table) = to_string entry.0 ++ 9 ∷ (ending entry.1 ++ report_entries table)

  -- What is printed for the table.
  unfoldable pub report : List (ℕ × ℤ) → Bytes
  unfolding report_entries
  report table = heading ++ report_entries table

abbrev pub pids : List (ℕ × ℤ) → List ℕ
pids [] = []
pids (entry ∷ table) = entry.0 ∷ pids table
