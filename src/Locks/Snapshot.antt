-- ===== src/Locks/Snapshot.antt =====
-- `snapshot_and_lock_two`: the loop that goes on while the hashpower changes.
use libcuckoo_cxx.Base.{
  ℕ, ◌≡◌, ◌≢◌, refl, sym, ap, subst, ◌∙◌, List, [], ◌∷◌, ◌++◌, true, Option, none, some, arith,
  Option-cases, some_eq, ◌⊎◌, inl, inr,
}
use libcuckoo_cxx.Hash.{lock_ind, index_hash, alt_index}
use libcuckoo_cxx.Locks.Order.{after, run, holds, taken, changed, lock_two-LocksTwo}
use libcuckoo_cxx.Locks.{Event, Container, release, lock_two, snapshot_and_lock_two}
use libcuckoo_cxx.Table.{HashValue}

run-append :
    (xs ys : List Event) (held h : List ℕ) → run xs held ≡ some h → run (xs ++ ys) held ≡ run ys h
unfolding run
run-append [] ys held h e = ap (run ys) (some_eq e)
run-append (x ∷ xs) ys held h e = elim (Option-cases (after x held)) [
  | inl f ↦ ground arith
  | inr (h', f) ↦ rw (run, f) (run-append xs ys h' h (ground arith))
]

-- The hashpower has changed in every one of these rounds.
abbrev pub AllChanged : List (ℕ × ℕ) → Type 0
AllChanged [] = Unit
AllChanged ((hp, now) ∷ rounds) = (now ≢ hp) × AllChanged rounds

-- A round in which the hashpower stayed, after some in which it changed.
abbrev pub SettledAt : ℕ → List (ℕ × ℕ) → Type 0
SettledAt h [] = ⊥
SettledAt h ((hp, now) ∷ rounds) = ((now ≡ hp) × (h ≡ hp)) ⊎ ((now ≢ hp) × SettledAt h rounds)

-- What the loop owes its caller.
pub data Snapshot (rounds : List (ℕ × ℕ)) (hv : HashValue) (r : List Event × Option (ℕ × Container))
    : Type 0 where
  settled :
      {hp : ℕ} {held : List ℕ} {c : Container}
      → SettledAt hp rounds
      → r.1 ≡ some (hp, c)
      → run r.0 [] ≡ some held
      → holds (lock_ind (index_hash hp hv.hash)) held ≡ true
      → holds (lock_ind (alt_index hp hv.partial (index_hash hp hv.hash))) held ≡ true
      → run (release c) held ≡ some []
      → Snapshot rounds hv r
  still_changing : AllChanged rounds → r.1 ≡ none → run r.0 [] ≡ some [] → Snapshot rounds hv r

module _ (hv : HashValue) where
  abbrev locked : ℕ → ℕ → List Event × Option Container
  locked hp now =
      lock_two hp now (index_hash hp hv.hash) (alt_index hp hv.partial (index_hash hp hv.hash))

  round_done :
      (hp now : ℕ) (rounds : List (ℕ × ℕ)) (c : Container)
      → (locked hp now).1 ≡ some c
      → snapshot_and_lock_two ((hp, now) ∷ rounds) hv ≡ ((locked hp now).0, some (hp, c))
  unfolding snapshot_and_lock_two
  round_done hp now rounds c e = rw (snapshot_and_lock_two, e) refl

  round_again :
      (hp now : ℕ) (rounds : List (ℕ × ℕ))
      → (locked hp now).1 ≡ none
      → snapshot_and_lock_two ((hp, now) ∷ rounds) hv ≡ (
        (locked hp now).0 ++ (snapshot_and_lock_two rounds hv).0,
        (snapshot_and_lock_two rounds hv).1,
      )
  unfolding snapshot_and_lock_two
  round_again hp now rounds e = rw (snapshot_and_lock_two, e) refl

  one_more :
      (hp now : ℕ) (rounds : List (ℕ × ℕ)) (events : List Event)
      (r : List Event × Option (ℕ × Container))
      → now ≢ hp
      → run events [] ≡ some []
      → Snapshot rounds hv r
      → Snapshot ((hp, now) ∷ rounds) hv (events ++ r.0, r.1)
  one_more hp now rounds events r n none_held (settled at e run_e h1 h2 back) =
      settled (inr (n, at)) e (run-append events r.0 [] [] none_held ∙ run_e) h1 h2 back
  one_more hp now rounds events r n none_held (still_changing all e run_e) =
      still_changing (n, all) e (run-append events r.0 [] [] none_held ∙ run_e)

  -- Over any sequence of hashpowers read before and under the first lock, `snapshot_and_lock_two`
  -- returns in the first round in which the two agree, holding the locks of the two buckets of the
  -- hash at that hashpower, which its container gives back; if there is no such round it holds
  -- nothing.
  pub snapshot_and_lock_two-Snapshot :
      (rounds : List (ℕ × ℕ)) → Snapshot rounds hv (snapshot_and_lock_two rounds hv)
  snapshot_and_lock_two-Snapshot [] =
      unfold snapshot_and_lock_two run in still_changing tt refl refl
  snapshot_and_lock_two-Snapshot ((hp, now) ∷ rounds) =
      elim (lock_two-LocksTwo hp now (index_hash hp hv.hash)
        (alt_index hp hv.partial (index_hash hp hv.hash))) [
          | taken same e run_e h1 h2 back ↦
              subst (Snapshot ((hp, now) ∷ rounds) hv) (sym (round_done hp now rounds _ e))
                (settled (inl (same, refl)) refl run_e h1 h2 back)
          | changed n e run_e ↦
              subst (Snapshot ((hp, now) ∷ rounds) hv) (sym (round_again hp now rounds e))
                (one_more hp now rounds _ _ n run_e (snapshot_and_lock_two-Snapshot rounds))
        ]
