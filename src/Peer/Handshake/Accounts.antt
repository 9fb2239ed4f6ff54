-- ===== src/Peer/Handshake/Accounts.antt =====
-- No entry is lost or doubled on its way to the thread of the peer.
use dag_blockchain.Prelude.{
  >>=-eq-some, Bool, Bool-cases, List, [], ap, append-nil, append_assoc, arith, false, inl, inr,
  leb, length, nat_eq, not, refl, some, subst, sym, true, ℕ, ◌++◌, ◌==◌, ◌||◌, ◌∙◌, ◌∷◌, ◌≡◌,
}
use mathlib.Core.Option.{some-injective}
use dag_blockchain.Peer.Handshake.{
  Holder, nobody, peer_has, server_has, when_free, wake_up, peer_step, server_step, PeerPlace,
  ServerPlace, Control, peer_goes, spurious, server_goes, at_head, locked, readied, asleep, awake,
  scans, scanned, downed, leaves, left, tests, polls, spins, saw_ready, wants_lock, inserts,
  inserted, notifies, ended, control_step, new_control,
}
use dag_blockchain.Peer.Handshake.Delivery.{
  Handing, HandingEvent, peer_turn, wakes_up, server_turn, seen_by, moved_by, is_due, handing_step,
  handing_run, new_handing, pending, AccountsAt, IsAccounted,
}

when_free-some : (o : Holder) (c c' : Control) → when_free o c ≡ some c' → c ≡ c'
when_free-some nobody c c' h = some-injective _ _ h
when_free-some peer_has c c' h = absurd (cc h)
when_free-some server_has c c' h = absurd (cc h)

-- A step of the peer, or a wake-up, leaves the server where it is.
abbrev Stays : Control → Control → Type 0
Stays c c' = c'.server ≡ c.server

peer_step-Stays :
    (stop : Bool) (p : PeerPlace) (c c' : Control) → peer_step stop p c ≡ some c' → Stays c c'
unfolding peer_step
peer_step-Stays stop at_head c c' h =
    subst (Stays c) (when_free-some c.owner (record c { owner = peer_has; peer = locked }) c' h)
      refl
peer_step-Stays stop locked c c' h = subst (Stays c) (some-injective _ _ h) refl
peer_step-Stays stop readied c c' h = subst (Stays c) (some-injective _ _ h) refl
peer_step-Stays stop asleep c c' h = absurd (cc h)
peer_step-Stays stop awake c c' h =
    subst (Stays c) (when_free-some c.owner (record c { owner = peer_has; peer = scans }) c' h) refl
peer_step-Stays stop scans c c' h = subst (Stays c) (some-injective _ _ h) refl
peer_step-Stays true scanned c c' h = subst (Stays c) (some-injective _ _ h) refl
peer_step-Stays false scanned c c' h = subst (Stays c) (some-injective _ _ h) refl
peer_step-Stays stop downed c c' h = subst (Stays c) (some-injective _ _ h) refl
peer_step-Stays stop leaves c c' h = subst (Stays c) (some-injective _ _ h) refl
peer_step-Stays stop left c c' h = absurd (cc h)

wake_up-Stays : (p : PeerPlace) (c c' : Control) → wake_up p c ≡ some c' → Stays c c'
wake_up-Stays asleep c c' h = subst (Stays c) (some-injective _ _ h) refl
wake_up-Stays at_head c c' h = absurd (cc h)
wake_up-Stays locked c c' h = absurd (cc h)
wake_up-Stays readied c c' h = absurd (cc h)
wake_up-Stays awake c c' h = absurd (cc h)
wake_up-Stays scans c c' h = absurd (cc h)
wake_up-Stays scanned c c' h = absurd (cc h)
wake_up-Stays downed c c' h = absurd (cc h)
wake_up-Stays leaves c c' h = absurd (cc h)
wake_up-Stays left c c' h = absurd (cc h)

module _ {ℓ} {A : Type ℓ} where
  seen_by-Accounts :
      (p : PeerPlace) (q : ServerPlace) (s : Handing A)
      → AccountsAt q s
      → AccountsAt q (seen_by p s)
  seen_by-Accounts scans q s h = (h.0 ∙ sym (append_assoc s.seen s.shared (pending q s.temp)), h.1)
  seen_by-Accounts at_head q s h = h
  seen_by-Accounts locked q s h = h
  seen_by-Accounts readied q s h = h
  seen_by-Accounts asleep q s h = h
  seen_by-Accounts awake q s h = h
  seen_by-Accounts scanned q s h = h
  seen_by-Accounts downed q s h = h
  seen_by-Accounts leaves q s h = h
  seen_by-Accounts left q s h = h

  -- The entries of a poll, when the lists were empty.
  polled :
      (entries received seen shared temp : List A)
      → temp ≡ []
      → received ≡ seen ++ (shared ++ temp)
      → received ++ entries ≡ seen ++ (shared ++ (entries ++ temp))
  polled entries received seen shared temp none_left h =
      let before : received ≡ seen ++ shared =
        h ∙ ap (λ t. seen ++ (shared ++ t)) none_left ∙ ap (λ t. seen ++ t) (append-nil shared) in
      ap (λ t. t ++ entries) before
      ∙ append_assoc seen shared entries
      ∙ ap (λ t. seen ++ (shared ++ t))
          (sym (append-nil entries) ∙ ap (λ t. entries ++ t) (sym none_left))

  -- A list that is not due is empty.
  not_due : (xs : List A) (nfds : ℕ) → (not (leb (length xs) 0) || nfds == 0) ≡ false → xs ≡ []
  not_due [] nfds h = refl
  not_due (x ∷ xs) nfds h = absurd (ground (arith, h))

  -- The server moves to the place `q'`.
  arrive :
      (s : Handing A) (c c' : Control) (q' : ServerPlace)
      → c ≡ c'
      → c.server ≡ q'
      → AccountsAt q' s
      → AccountsAt c'.server s
  arrive s c c' q' e at h = subst (λ q. AccountsAt q s) (sym at ∙ ap (λ d. d.server) e) h

  server_turn-Accounts :
      (q : ServerPlace) (entries : List A) (nfds : ℕ) (s : Handing A) (c' : Control)
      → AccountsAt q s
      → server_step (is_due entries nfds s) q s.control ≡ some c'
      → AccountsAt c'.server (moved_by q entries s)
  unfolding server_step
  server_turn-Accounts tests entries nfds s c' acc h = elim (Bool-cases s.control.up) [
    | inl up ↦ arrive s _ c' polls (some-injective _ _ h) (rw up refl) acc
    | inr down ↦ arrive s _ c' ended (some-injective _ _ h) (rw down refl) acc
  ]
  server_turn-Accounts polls entries nfds s c' acc h =
      let after = polled entries s.received s.seen s.shared s.temp acc.1 acc.0 in
      elim (Bool-cases (is_due entries nfds s)) [
        | inl due ↦
            arrive (moved_by polls entries s) _ c' spins (some-injective _ _ h) (rw due refl)
              (after, tt)
        | inr early ↦
            arrive (moved_by polls entries s) _ c' tests (some-injective _ _ h) (rw early refl)
              (after, not_due (entries ++ s.temp) nfds early)
      ]
  server_turn-Accounts spins entries nfds s c' acc h = elim (Bool-cases s.control.ready) [
    | inl ready ↦ arrive s _ c' saw_ready (some-injective _ _ h) (rw ready refl) acc
    | inr unready ↦ arrive s _ c' spins (some-injective _ _ h) (rw unready refl) acc
  ]
  server_turn-Accounts saw_ready entries nfds s c' acc h =
      arrive s _ c' wants_lock (some-injective _ _ h) refl acc
  server_turn-Accounts wants_lock entries nfds s c' acc h =
      arrive s (record (s.control) { owner = server_has; server = inserts }) c' inserts
        (when_free-some s.control.owner _ c' h) refl acc
  server_turn-Accounts inserts entries nfds s c' acc h =
      arrive (moved_by inserts entries s) _ c' inserted (some-injective _ _ h) refl
        (acc.0 ∙ ap (λ t. s.seen ++ t) (sym (append-nil (s.shared ++ s.temp))), tt)
  server_turn-Accounts inserted entries nfds s c' acc h =
      arrive s _ c' notifies (some-injective _ _ h) refl acc
  server_turn-Accounts notifies entries nfds s c' acc h =
      arrive (moved_by notifies entries s) _ c' tests (some-injective _ _ h) refl (acc.0, refl)
  server_turn-Accounts ended entries nfds s c' acc h = absurd (cc h)

  handing_step-IsAccounted :
      (e : HandingEvent A) (s s' : Handing A)
      → IsAccounted s
      → handing_step e s ≡ some s'
      → IsAccounted s'
  unfolding handing_step control_step
  handing_step-IsAccounted (peer_turn stop) s s' acc h =
      let (c, e, r) = >>=-eq-some (control_step (peer_goes stop) s.control) _ h in
      subst IsAccounted (some-injective _ _ r) (
        subst (λ q. AccountsAt q (seen_by s.control.peer s))
          (sym (peer_step-Stays stop s.control.peer s.control c e))
          (seen_by-Accounts s.control.peer s.control.server s acc))
  handing_step-IsAccounted wakes_up s s' acc h =
      let (c, e, r) = >>=-eq-some (control_step spurious s.control) _ h in
      subst IsAccounted (some-injective _ _ r)
        (subst (λ q. AccountsAt q s) (sym (wake_up-Stays s.control.peer s.control c e)) acc)
  handing_step-IsAccounted (server_turn entries nfds) s s' acc h =
      let (c, e, r) =
        >>=-eq-some (control_step (server_goes (is_due entries nfds s)) s.control) _ h in
      subst IsAccounted (some-injective _ _ r)
        (server_turn-Accounts s.control.server entries nfds s c acc e)

  handing_run-IsAccounted :
      (es : List (HandingEvent A)) (s s' : Handing A)
      → IsAccounted s
      → handing_run es s ≡ some s'
      → IsAccounted s'
  unfolding handing_run
  handing_run-IsAccounted [] s s' acc h = subst IsAccounted (some-injective _ _ h) acc
  handing_run-IsAccounted (e ∷ es) s s' acc h =
      let (m, a, b) = >>=-eq-some (handing_step e s) (handing_run es) h in
      handing_run-IsAccounted es m s' (handing_step-IsAccounted e s m acc a) b

  -- Nothing is left in the lists of the server.
  accounts-ended :
      (q : ServerPlace) (s : Handing A)
      → q ≡ ended
      → AccountsAt q s
      → s.received ≡ s.seen ++ s.shared
  accounts-ended q s over acc =
      let (all, empty) = subst (λ r. AccountsAt r s) over acc in
      all ∙ ap (λ t. s.seen ++ (s.shared ++ t)) empty ∙ ap (λ t. s.seen ++ t) (append-nil s.shared)

  -- The thread of the server and that of the peer take their steps in any order, with any wake-ups
  -- of condition variables, from new ones. Then what the server has put into its lists is what the
  -- peer has gone through, followed by what is in the shared lists and by what the server has still
  -- to hand over, in this order, so that nothing is lost or doubled; and once the server has left
  -- its loop, nothing is left in its own lists.
  pub delivered :
      (es : List (HandingEvent A)) (s : Handing A)
      → handing_run es new_handing ≡ some s
      → (s.received ≡ s.seen ++ (s.shared ++ pending s.control.server s.temp))
        × (s.control.server ≡ ended → s.received ≡ s.seen ++ s.shared)
  unfolding new_handing new_control
  delivered es s h =
      let acc = handing_run-IsAccounted es new_handing s (refl, refl) h in
      (acc.0, λ over. accounts-ended s.control.server s over acc)
