-- ===== src/Lease/Exclusive.antt =====
-- Callers of src/catalogue.rs and the rows that name them.
use mathlib.Core.Path.{subst}
use workspace_atlas.Common.{
  text_eq-swap, ℕ, true, ◌&&◌, List, [], ◌∷◌, Option, none, some, Text, text_eq, text_eq_sound,
  text_eq_refl, Bool-cases, inl, inr, ◌≡◌, refl, sym, ap, ◌∙◌, arith, All, ok,
}
use workspace_atlas.Lease.Rows.{
  Lease, LeaseTable, Chrono, Readings, lease_of, upsert, update_held, delete_held,
}
use workspace_atlas.Lease.Operations.{may_acquire, new_lease, beat, release_writer_lease}
use workspace_atlas.Lease.Holders.{
  holder_in, holder?, Single, kept_or, holder?-upsert, Single-upsert, holder?-update_held,
  Single-update_held, holder?-delete_held, Single-delete_held,
}
use workspace_atlas.Lease.Callers.{Holding, holds, without, Timely, Step, Reach, start, next}
use workspace_atlas.Lease.Effects.{acquire-eq-ok, heartbeat-eq-ok}

-- The table names every caller that holds a lease.
abbrev Named : List Lease → Holding → Type 0
Named leases = All (λ one. holder? one.0 leases ≡ some one.1)

Named-upsert :
    (new : Lease) (leases : List Lease) (holding : Holding)
    → Named leases holding
    → Named (upsert new leases) holding
Named-upsert new leases [] n = tt
Named-upsert new leases (one ∷ others) n =
    (holder?-upsert one.0 new leases ∙ rw n.0 (ground arith), Named-upsert new leases others n.1)

Named-delete_held :
    (workspace holder : Text) (leases : List Lease) (holding : Holding)
    → Single leases
    → Named leases holding
    → Named (delete_held workspace holder leases) (without workspace holder holding)
Named-delete_held w h leases [] s n = tt
Named-delete_held w h leases (one ∷ others) s n =
    let swapped = text_eq-swap one.0 w in
    let rest = Named-delete_held w h leases others s n.1 in
    let named = holder?-delete_held one.0 w h leases s in
    elim (Bool-cases (text_eq one.0 w && text_eq one.1 h)) [
      | inl e ↦ rw e rest
      | inr e ↦ rw e (named ∙ rw (← swapped, n.0, e) refl, rest)
    ]

pub Named-holds :
    (workspace holder : Text) (leases : List Lease) (holding : Holding)
    → Named leases holding
    → holds workspace holder holding ≡ true
    → holder? workspace leases ≡ some holder
Named-holds w h leases [] n e = cc
Named-holds w h leases (one ∷ others) n e = elim (Bool-cases (text_eq one.0 w && text_eq one.1 h)) [
  | inl f ↦
      let key = text_eq_sound one.0 w (ground arith) in
      let name = text_eq_sound one.1 h (ground arith) in rw (← key, ← name) n.0
  | inr f ↦ Named-holds w h leases others n.1 (ground arith)
]

-- Without a takeover, the table names the new holder.
acquire-named :
    (chrono : Chrono) (clock : Readings) (holder : Text) (stale : ℕ) (existing : Option Lease)
    → Timely chrono clock.checked holder stale existing
    → may_acquire chrono clock.checked holder stale existing ≡ ok true
    → kept_or (holder_in existing) holder ≡ holder
acquire-named chrono clock holder stale none timely allowed = refl
acquire-named chrono clock holder stale (some row) (inl same) allowed =
    text_eq_sound row.holder_id holder same
acquire-named chrono clock holder stale (some row) (inr fresh) allowed =
    elim (Bool-cases (text_eq row.holder_id holder)) [
      | inl e ↦ text_eq_sound row.holder_id holder e
      | inr e ↦ absurd (fresh (ground arith))
    ]

Named-update_held :
    (w h : Text) (change : Lease → Lease) (leases : List Lease) (holding : Holding)
    → ((row : Lease)
        → ((change row).workspace_id ≡ row.workspace_id) × ((change row).holder_id ≡ row.holder_id))
    → Named leases holding
    → Named (update_held w h change leases) holding
Named-update_held w h change leases [] keeps n = tt
Named-update_held w h change leases (one ∷ others) keeps n = (
  holder?-update_held one.0 w h change leases keeps ∙ n.0,
  Named-update_held w h change leases others keeps n.1,
)

Step-Named :
    (chrono : Chrono) {table table' : LeaseTable} {holding holding' : Holding}
    → Step chrono table holding table' holding'
    → Single table.leases × Named table.leases holding
    → Single table'.leases × Named table'.leases holding'
unfolding release_writer_lease
Step-Named chrono (Step.acquire clock table holding w h duration stale guard table' timely e)
      (s, n) =
    let (given, same, allowed) =
      acquire-eq-ok chrono clock table w h duration stale guard table' e in
    let new = new_lease clock w h duration in
    let first : holder? w (upsert new table.leases) ≡ some h =
      holder?-upsert w new table.leases
      ∙ rw (text_eq_refl w)
          (ap some (acquire-named chrono clock h stale (lease_of w table.leases) timely allowed)) in
    subst (λ t. Single t.leases × Named t.leases ((guard.workspace_id, guard.holder_id) ∷ holding))
      (sym same)
      (subst
        (λ g.
          Single (upsert new table.leases)
          × Named (upsert new table.leases) ((g.workspace_id, g.holder_id) ∷ holding))
        (sym given)
        (Single-upsert new table.leases s, (first, Named-upsert new table.leases holding n)))
Step-Named chrono (Step.heartbeat clock table holding w h table' e) (s, n) =
    let same = heartbeat-eq-ok clock table w h table' e in
    subst (λ t. Single t.leases × Named t.leases holding) (sym same)
      (
        Single-update_held w h (beat clock) table.leases (λ row. (refl, refl)) s,
        Named-update_held w h (beat clock) table.leases holding (λ row. (refl, refl)) n,
      )
Step-Named chrono (Step.release table holding w h) (s, n) =
    (Single-delete_held w h table.leases s, Named-delete_held w h table.leases holding s n)

Reach-Named :
    {chrono : Chrono} {workspaces : List Text} {table : LeaseTable} {holding : Holding}
    → Reach chrono workspaces table holding
    → Single table.leases × Named table.leases holding
Reach-Named start = (tt, tt)
Reach-Named {chrono} (next reach step) = Step-Named chrono step (Reach-Named reach)

-- As long as nobody takes over a lease whose heartbeat is too old, two callers that hold the lease of
-- one workspace at one time have one name, whatever the order of acquisitions, heartbeats and releases
-- by any number of callers.
pub Reach-exclusive :
    {chrono : Chrono} {workspaces : List Text} {table : LeaseTable} {holding : Holding}
    → Reach chrono workspaces table holding
    → (workspace one other : Text) → holds workspace one holding ≡ true
    → holds workspace other holding ≡ true
    → one ≡ other
Reach-exclusive {table = table} {holding = holding} reach workspace one other h k =
    let named = (Reach-Named reach).1 in
    let first = Named-holds workspace one table.leases holding named h in
    let second = Named-holds workspace other table.leases holding named k in cc
