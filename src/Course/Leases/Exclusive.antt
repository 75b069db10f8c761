-- ===== src/Course/Leases/Exclusive.antt =====
-- internal/course/infra/repo_outline.go: leases over any sequence of calls.
use be_mycourse.Shared.{
  ℕ, ◌+◌, ◌<◌, ◌≡◌, ◌≢◌, refl, sym, subst, ◌∙◌, ◌⊎◌, inl, inr, Bool, true, false, not, some, List,
  [], ◌∷◌, ◌++◌, Text, text_eq, text_eq→eq, eq→text_eq, ltb→lt, text_eq_refl, contains,
  contains-append, map, keep, lt→ltb, IsDistinct, Bool-cases, Option-cases, ok, err, arith,
}
use mathlib.Core.List.{map-append}
use be_mycourse.Shared.Every.{All}
use be_mycourse.Course.Rows.{course_lease_held_by_other_user, first_row, update_where, create}
use be_mycourse.Course.Rows.Lookup.{
  map-update_where, first_row-passes, first_row-update_where, first_row-last,
}
use be_mycourse.Course.Leases.{
  LeaseRow, AcquireLeaseInput, is_on, Fresh, new_lease, taken_over, held_by_other, lease_from,
  acquire, has_token, prolonged, heartbeat_lease, release_lease, LeaseCall, acquires, beats,
  releases, after_call,
}
use be_mycourse.Course.Leases.Held.{HasDistinctIds, caller, call_kept}

IsDistinct-append :
    (ids : List Text) (a : Text)
    → IsDistinct ids
    → contains a ids ≡ false
    → IsDistinct (ids ++ a ∷ [])
unfolding contains
IsDistinct-append [] a d h = (refl, tt)
IsDistinct-append (x ∷ ids) a d h = (
  rw (contains-append x ids (a ∷ [])) (ground (arith, d.0, text_eq→eq x a, text_eq_refl a)),
  IsDistinct-append ids a d.1 (ground arith),
)

contains-keep :
    (a : Text) (p : LeaseRow → Bool) (ls : List LeaseRow)
    → contains a (map (λ l. l.id) ls) ≡ false
    → contains a (map (λ l. l.id) (keep p ls)) ≡ false
unfolding contains keep
contains-keep a p [] h = h
contains-keep a p (x ∷ ls) h = elim (Bool-cases (p x)) [
  | inl t ↦ rw (t, keep, contains) (ground (arith, contains-keep a p ls))
  | inr t ↦ rw (t, keep) (contains-keep a p ls (ground arith))
]

keep-HasDistinctIds :
    (p : LeaseRow → Bool) (ls : List LeaseRow) → HasDistinctIds ls → HasDistinctIds (keep p ls)
unfolding keep
keep-HasDistinctIds p [] d = tt
keep-HasDistinctIds p (x ∷ ls) d = elim (Bool-cases (p x)) [
  | inl t ↦ rw (t, keep) (contains-keep x.id p ls d.0, keep-HasDistinctIds p ls d.1)
  | inr t ↦ rw (t, keep) (keep-HasDistinctIds p ls d.1)
]

updated-HasDistinctIds :
    (p : LeaseRow → Bool) (f : LeaseRow → LeaseRow) (ls : List LeaseRow)
    → ((l : LeaseRow) → (f l).id ≡ l.id)
    → HasDistinctIds ls
    → HasDistinctIds (update_where p f ls)
updated-HasDistinctIds p f ls same d =
    subst IsDistinct (sym (map-update_where (λ (l : LeaseRow). l.id) p f same ls)) d

-- Every call keeps the primary key.
pub after_call-HasDistinctIds :
    (c : LeaseCall) (now : ℕ) (ls : List LeaseRow)
    → HasDistinctIds ls
    → HasDistinctIds (after_call c now ls)
unfolding after_call acquire lease_from create heartbeat_lease release_lease
after_call-HasDistinctIds (acquires input course actor fresh) now ls d =
    elim (Option-cases (first_row (is_on input) ls)) [
      | inl e ↦ elim (Bool-cases (contains fresh.id (map (λ x. x.id) ls))) [
        | inl taken ↦ rw (e, taken) d
        | inr free ↦
            rw (e, free)
              (subst IsDistinct
                (sym (
                  map-append (λ (l : LeaseRow). l.id) ls
                    (new_lease input course actor fresh now ∷ [])))
                (IsDistinct-append (map (λ l. l.id) ls) fresh.id d free))
      ]
      | inr (x, e) ↦ elim (Bool-cases (held_by_other actor now x)) [
        | inl held ↦ rw (e, held) d
        | inr open_to ↦
            rw (e, open_to)
              (updated-HasDistinctIds (λ y. text_eq y.id x.id) (taken_over actor fresh now) ls
                (λ y. refl) d)
      ]
    ]
after_call-HasDistinctIds (beats course actor token) now ls d =
    elim (Option-cases (first_row (has_token course actor token) ls)) [
      | inl e ↦ rw (e) d
      | inr (x, e) ↦
          rw (e) (updated-HasDistinctIds (λ y. text_eq y.id x.id) (prolonged now) ls (λ y. refl) d)
    ]
after_call-HasDistinctIds (releases course actor token) now ls d =
    keep-HasDistinctIds (λ l. not (has_token course actor token l)) ls d

-- The calls in turn, each at its instant.
unfoldable pub after_calls : List (ℕ × LeaseCall) → List LeaseRow → List LeaseRow
unfolding after_call
after_calls [] ls = ls
after_calls ((now, c) ∷ cs) ls = after_calls cs (after_call c now ls)

-- A call of another user while the lease is in force.
abbrev pub IsIntruding : LeaseRow → ℕ × LeaseCall → Type 0
IsIntruding l (now, c) = (now < l.expires_at) × (text_eq l.holder_user_id (caller c) ≡ false)

-- A lease stays as it is through all calls of other users before it ends, and an acquisition by
-- another user then fails.
pub lease_exclusive :
    (on : AcquireLeaseInput) (l : LeaseRow) (cs : List (ℕ × LeaseCall)) (ls : List LeaseRow)
    (course actor : Text) (fresh : Fresh) (now : ℕ)
    → HasDistinctIds ls
    → first_row (is_on on) ls ≡ some l
    → All (IsIntruding l) cs
    → now < l.expires_at
    → text_eq l.holder_user_id actor ≡ false
    → (first_row (is_on on) (after_calls cs ls) ≡ some l)
      × (acquire on course actor fresh now (after_calls cs ls)
          ≡ err course_lease_held_by_other_user)
unfolding after_calls acquire lease_from
lease_exclusive on l [] ls course actor fresh now d found before in_force other =
    (found, rw (found) (ground (arith, lt→ltb now l.expires_at in_force)))
lease_exclusive on l ((at, c) ∷ cs) ls course actor fresh now d found before in_force other =
    lease_exclusive on l cs (after_call c at ls) course actor fresh now
      (after_call-HasDistinctIds c at ls d) (call_kept on l at before.0.0 c ls d found before.0.1)
      before.1 in_force other

-- The resource of a lease is the one asked for.
pub record IsOnResource (on : AcquireLeaseInput) (l : LeaseRow) : Type 0 where
  pub same_version : l.course_version_id ≡ on.course_version_id
  pub same_type : l.resource_type ≡ on.resource_type
  pub same_resource : l.resource_stable_id ≡ on.resource_stable_id

-- A lease on the resource that has not ended and that another user holds.
pub record IsBlocked (on : AcquireLeaseInput) (actor : Text) (now : ℕ) (ls : List LeaseRow)
    : Type 0 where
  pub lease : LeaseRow
  pub listed : first_row (is_on on) ls ≡ some lease
  pub on_resource : IsOnResource on lease
  pub in_force : now < lease.expires_at
  pub of_another : lease.holder_user_id ≢ actor

-- The lease on the resource, which the user holds with the token for 300 seconds.
pub record IsAcquired (on : AcquireLeaseInput) (actor token : Text) (now : ℕ) (ls : List LeaseRow)
    (l : LeaseRow) : Type 0 where
  pub listed : first_row (is_on on) ls ≡ some l
  pub on_resource : IsOnResource on l
  pub holder : l.holder_user_id ≡ actor
  pub token_now : l.lease_token ≡ token
  pub ends : l.expires_at ≡ now + 300

is_on-IsOnResource : (on : AcquireLeaseInput) (l : LeaseRow) → is_on on l ≡ true → IsOnResource on l
is_on-IsOnResource on l h = record {
  same_version = text_eq→eq l.course_version_id on.course_version_id (ground arith);
  same_type = text_eq→eq l.resource_type on.resource_type (ground arith);
  same_resource = text_eq→eq l.resource_stable_id on.resource_stable_id (ground arith);
}

held_by_other-IsBlocked :
    (on : AcquireLeaseInput) (actor : Text) (now : ℕ) (ls : List LeaseRow) (l : LeaseRow)
    → first_row (is_on on) ls ≡ some l
    → held_by_other actor now l ≡ true
    → IsBlocked on actor now ls
held_by_other-IsBlocked on actor now ls l found held = record {
  lease = l;
  listed = found;
  on_resource = is_on-IsOnResource on l (first_row-passes (is_on on) ls found);
  in_force = ltb→lt now l.expires_at (ground arith);
  of_another = λ same.
      let hit : text_eq l.holder_user_id actor ≡ true = eq→text_eq l.holder_user_id actor same in
      absurd (ground arith);
}

-- With a new id, an acquisition gives the user a lease of 300 seconds with the new token, which is
-- then the one on the resource, or it fails, as a lease on the resource that another user holds has
-- not ended.
pub acquire-or_IsBlocked :
    (on : AcquireLeaseInput) (course actor : Text) (fresh : Fresh) (now : ℕ) (ls : List LeaseRow)
    → contains fresh.id (map (λ (l : LeaseRow). l.id) ls) ≡ false
    → ((l : LeaseRow) × (ls' : List LeaseRow) × (acquire on course actor fresh now ls ≡ ok (ls', l))
        × IsAcquired on actor fresh.token now ls' l)
      ⊎ (IsBlocked on actor now ls
          × (acquire on course actor fresh now ls ≡ err course_lease_held_by_other_user))
unfolding acquire lease_from create
acquire-or_IsBlocked on course actor fresh now ls free =
    elim (Option-cases (first_row (is_on on) ls)) [
      | inl e ↦ inl (
        new_lease on course actor fresh now,
        ls ++ new_lease on course actor fresh now ∷ [],
        rw (e, free) refl,
        record {
          listed = first_row-last (is_on on) ls (new_lease on course actor fresh now) e (
              ground (
                arith,
                text_eq_refl on.course_version_id,
                text_eq_refl on.resource_type,
                text_eq_refl on.resource_stable_id,
              ));
          on_resource = record { same_version = refl; same_type = refl; same_resource = refl };
          holder = refl;
          token_now = refl;
          ends = refl;
        },
      )
      | inr (x, e) ↦ elim (Bool-cases (held_by_other actor now x)) [
        | inl held ↦ inr (held_by_other-IsBlocked on actor now ls x e held, rw (e, held) refl)
        | inr open_to ↦
            let there = is_on-IsOnResource on x (first_row-passes (is_on on) ls e) in
            inl (
              taken_over actor fresh now x,
              update_where (λ y. text_eq y.id x.id) (taken_over actor fresh now) ls,
              rw (e, open_to) refl,
              record {
                listed =
                    first_row-update_where (is_on on) (λ y. text_eq y.id x.id)
                      (taken_over actor fresh now)
                      (λ y. elim (Bool-cases (text_eq y.id x.id)) [
                        | inl t ↦ rw (t) refl
                        | inr t ↦ rw (t) refl
                      ])
                      ls
                    ∙ rw (e, text_eq_refl x.id) refl;
                on_resource = record {
                  same_version = there.same_version;
                  same_type = there.same_type;
                  same_resource = there.same_resource;
                };
                holder = refl;
                token_now = refl;
                ends = refl;
              },
            )
      ]
    ]
