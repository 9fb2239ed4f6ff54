-- ===== src/Main/Statuses/Report.antt =====
-- What the parent prints for the children that have ended.
use dag_blockchain.Prelude.{
  All, Bytes, List, [], ap, append-nil, append_assoc, ap₂, concat, map, nat_eq, refl, subst, sym, ℕ,
  ◌++◌, ◌∙◌, ◌∷◌, ◌≡◌,
}
use dag_blockchain.Prelude.Int.{pos, ℤ}
use mathlib.Core.List.{Perm}
use dag_blockchain.Bytes.Decimal.{to_string, to_string_ℤ}
use dag_blockchain.Containers.Set.{IsDistinct}
use dag_blockchain.Main.Statuses.{
  statuses, pids, WaitMacros, ending, report, report_entries, heading, exited_text, signaled_text,
}
use dag_blockchain.Main.Statuses.Table.{
  Ended, Way, exits, killed, stopped, entries, IsAscending, arrange, arrange_lem, All-arrange,
  All-none,
}

module _ (macros : WaitMacros) where
  -- A status for the way that a child has ended: the macros answer 1 or 0 for it.
  abbrev pub HasWay : Ended → Type 0
  HasWay e = elim e.way [
    | exits ↦ macros.w_if_exited e.status ≡ pos 1
    | killed ↦ (macros.w_if_exited e.status ≡ pos 0) × (macros.w_if_signaled e.status ≡ pos 1)
    | stopped ↦ (macros.w_if_exited e.status ≡ pos 0) × (macros.w_if_signaled e.status ≡ pos 0)
  ]

  -- What is printed for a child: the process id, and what the macros make of a status of 1.
  abbrev pub line : Ended → Bytes
  line e =
      to_string e.pid
      ++ 9 ∷ (elim e.way [
        | exits ↦ exited_text ++ (to_string_ℤ (macros.w_exit_status (pos 1)) ++ 10 ∷ [])
        | killed ↦ signaled_text ++ (to_string_ℤ (macros.w_term_sig (pos 1)) ++ 10 ∷ [])
        | stopped ↦ []
      ])

  ending-line :
      (pid : ℕ) (status : ℤ) (way : Way)
      → HasWay (record { pid = pid; status = status; way = way })
      → to_string pid ++ 9 ∷ ending macros status
        ≡ line (record { pid = pid; status = status; way = way })
  unfolding ending
  ending-line pid status exits h = rw h refl
  ending-line pid status killed h = rw (h.0, h.1) refl
  ending-line pid status stopped h = rw (h.0, h.1) refl

  report_entries-lines :
      (table : List Ended)
      → All HasWay table
      → report_entries macros (entries table) ≡ concat (map line table)
  unfolding report_entries
  report_entries-lines [] all = refl
  report_entries-lines (e ∷ es) all =
      sym (
        append_assoc (to_string e.pid) (9 ∷ ending macros e.status)
          (report_entries macros (entries es)))
      ∙ ap₂ (λ x y. x ++ y) (ending-line e.pid e.status e.way all.0) (report_entries-lines es all.1)

  -- Children with different process ids have ended, each of them in one of three ways: it has
  -- exited, it was killed by a signal, or neither. For each of these the macros of the test answer
  -- 1 for true and 0 for false. Then the parent prints the heading and the lines of the children,
  -- each child once, in order of the process ids. The line of a child that has exited says so, with
  -- what WEXITSTATUS makes of 1, that of a killed one with what WTERMSIG makes of 1, whatever their
  -- statuses are, and for another child there is only its process id and a tab.
  pub report_lem :
      (ended : List Ended)
      → IsDistinct (pids (entries ended))
      → All HasWay ended
      → (table : List Ended) × Perm table ended
        × IsAscending table
        × (report macros (statuses (entries ended) []) ≡ heading ++ concat (map line table))
  unfolding report
  report_lem ended distinct ways =
      let (run, perm, up) = arrange_lem ended [] distinct (All-none ended) tt in
      (
        arrange ended [],
        subst (Perm (arrange ended [])) (append-nil ended) perm,
        up,
        ap (λ t. heading ++ report_entries macros t) run
            ∙ ap (λ t. heading ++ t)
                (report_entries-lines (arrange ended []) (All-arrange HasWay ended [] ways tt)),
      )
