-- ===== src/Course/Leases/Held.antt =====
-- internal/course/infra/repo_outline.go: a lease in force, and one call.
use be_mycourse.Shared.{
  ℕ, ◌<◌, ◌≡◌, refl, sym, ap, subst, ◌∙◌, inl, inr, Bool, true, false, not, some, List, [], ◌∷◌,
  Text, text_eq, text_eq→eq, text_eq_refl, contains, map, keep, lt→ltb, IsDistinct, Bool-cases,
  Option-cases, arith,
}
use be_mycourse.Course.Rows.{first_row, update_where, create}
use be_mycourse.Course.Rows.Lookup.{first_row-passes, first_row-update_where, first_row-append}
use be_mycourse.Course.Leases.{
  LeaseRow, AcquireLeaseInput, is_on, Fresh, new_lease, taken_over, held_by_other, lease_from,
  acquire, has_token, prolonged, heartbeat_lease, release_lease, LeaseCall, acquires, beats,
  releases, rows_after, after_call,
}

-- The primary key.
abbrev pub HasDistinctIds : List LeaseRow → Type 0
HasDistinctIds ls = IsDistinct (map (λ l. l.id) ls)

abbrev pub caller : LeaseCall → Text
caller (acquires input course actor fresh) = actor
caller (beats course actor token) = actor
caller (releases course actor token) = actor

first_row-contains :
    (q : LeaseRow → Bool) (ls : List LeaseRow) {a : LeaseRow}
    → first_row q ls ≡ some a
    → contains a.id (map (λ l. l.id) ls) ≡ true
unfolding first_row contains
first_row-contains q [] h = cc
first_row-contains q (x ∷ ls) {a} h = elim (Bool-cases (q x)) [
  | inl t ↦ let same : x ≡ a = ground arith in rw (← same) (ground (arith, text_eq_refl x.id))
  | inr t ↦ ground (arith, first_row-contains q ls {a = a} (ground arith))
]

-- Two rows that are found and have one id are one.
one_lease :
    (q r : LeaseRow → Bool) (ls : List LeaseRow) (a b : LeaseRow)
    → HasDistinctIds ls
    → first_row q ls ≡ some a
    → first_row r ls ≡ some b
    → a.id ≡ b.id
    → a ≡ b
unfolding first_row
one_lease q r [] a b d h k e = cc
one_lease q r (x ∷ ls) a b d h k e = elim (Bool-cases (q x)) [
  | inl s ↦ elim (Bool-cases (r x)) [
    | inl t ↦ ground arith
    | inr t ↦
        let first : x ≡ a = ground arith in
        let later = first_row-contains r ls {a = b} (ground arith) in
        let key : x.id ≡ b.id = ap (λ (l : LeaseRow). l.id) first ∙ e in
        absurd (cc (d.0, subst (λ i. contains i (map (λ l. l.id) ls) ≡ true) (sym key) later))
  ]
  | inr s ↦ elim (Bool-cases (r x)) [
    | inl t ↦
        let first : x ≡ b = ground arith in
        let later = first_row-contains q ls {a = a} (ground arith) in
        let key : x.id ≡ a.id = ap (λ (l : LeaseRow). l.id) first ∙ sym e in
        absurd (cc (d.0, subst (λ i. contains i (map (λ l. l.id) ls) ≡ true) (sym key) later))
    | inr t ↦ one_lease q r ls a b d.1 (ground arith) (ground arith) e
  ]
]

-- An update of another row.
kept_row :
    (on : AcquireLeaseInput) (f : LeaseRow → LeaseRow) (ls : List LeaseRow) (l x : LeaseRow)
    → ((y : LeaseRow) → is_on on (f y) ≡ is_on on y)
    → first_row (is_on on) ls ≡ some l
    → text_eq l.id x.id ≡ false
    → first_row (is_on on) (update_where (λ y. text_eq y.id x.id) f ls) ≡ some l
kept_row on f ls l x same found other =
    first_row-update_where (is_on on) (λ y. text_eq y.id x.id) f
      (λ y. elim (Bool-cases (text_eq y.id x.id)) [ inl t ↦ rw (t) (same y) | inr t ↦ rw (t) refl ])
      ls
    ∙ rw (found, other) refl

kept_row_keep :
    (on : AcquireLeaseInput) (p : LeaseRow → Bool) (ls : List LeaseRow) (l : LeaseRow)
    → first_row (is_on on) ls ≡ some l
    → p l ≡ true
    → first_row (is_on on) (keep p ls) ≡ some l
unfolding first_row keep
kept_row_keep on p [] l found t = cc
kept_row_keep on p (x ∷ ls) l found t = elim (Bool-cases (is_on on x)) [
  | inl here ↦
      let same : x ≡ l = ground arith in
      let passes : p x ≡ true = rw (same) t in rw (passes, first_row, here) (ap some same)
  | inr elsewhere ↦ elim (Bool-cases (p x)) [
    | inl s ↦ rw (s, first_row, elsewhere) (kept_row_keep on p ls l (ground arith) t)
    | inr s ↦ rw (s) (kept_row_keep on p ls l (ground arith) t)
  ]
]

other_id : (l x : LeaseRow) → (l.id ≡ x.id → ⊥) → text_eq l.id x.id ≡ false
other_id l x h = elim (Bool-cases (text_eq l.id x.id)) [
  | inr t ↦ t
  | inl t ↦ absurd (h (text_eq→eq l.id x.id t))
]

module _ (on : AcquireLeaseInput) (l : LeaseRow) (now : ℕ) (in_force : now < l.expires_at) where
  acquire_kept :
      (input : AcquireLeaseInput) (course actor : Text) (fresh : Fresh) (ls : List LeaseRow)
      → HasDistinctIds ls
      → first_row (is_on on) ls ≡ some l
      → text_eq l.holder_user_id actor ≡ false
      → first_row (is_on on) (rows_after ls (acquire input course actor fresh now ls)) ≡ some l
  unfolding acquire lease_from create
  acquire_kept input course actor fresh ls d found other =
      elim (Option-cases (first_row (is_on input) ls)) [
        | inl e ↦ elim (Bool-cases (contains fresh.id (map (λ x. x.id) ls))) [
          | inl taken ↦ rw (e, taken) found
          | inr free ↦
              rw (e, free)
                (first_row-append (is_on on) ls (new_lease input course actor fresh now ∷ []) found)
        ]
        | inr (x, e) ↦ elim (Bool-cases (held_by_other actor now x)) [
          | inl held ↦ rw (e, held) found
          | inr open_to ↦
              rw (e, open_to)
                (kept_row on (taken_over actor fresh now) ls l x (λ y. refl) found
                  (other_id l x (λ k.
                    let same = one_lease (is_on on) (is_on input) ls l x d found e k in
                    let held : held_by_other actor now l ≡ true =
                      ground (arith, lt→ltb now l.expires_at in_force) in
                    cc (open_to, subst (λ y. held_by_other actor now y ≡ true) same held))))
        ]
      ]

  heartbeat_kept :
      (course actor token : Text) (ls : List LeaseRow)
      → HasDistinctIds ls
      → first_row (is_on on) ls ≡ some l
      → text_eq l.holder_user_id actor ≡ false
      → first_row (is_on on) (rows_after ls (heartbeat_lease course actor token now ls)) ≡ some l
  unfolding heartbeat_lease
  heartbeat_kept course actor token ls d found other =
      elim (Option-cases (first_row (has_token course actor token) ls)) [
        | inl e ↦ rw (e) found
        | inr (x, e) ↦ rw (e) (
            kept_row on (prolonged now) ls l x (λ y. refl) found
              (other_id l x (λ k.
                let same = one_lease (is_on on) (has_token course actor token) ls l x d found e k in
                let passes = first_row-passes (has_token course actor token) ls e in
                let his : text_eq x.holder_user_id actor ≡ true = ground arith in
                cc (
                  other,
                  subst (λ (y : LeaseRow). text_eq y.holder_user_id actor ≡ true) (sym same) his,
                ))))
      ]

  release_kept :
      (course actor token : Text) (ls : List LeaseRow)
      → first_row (is_on on) ls ≡ some l
      → text_eq l.holder_user_id actor ≡ false
      → first_row (is_on on) (release_lease course actor token ls) ≡ some l
  unfolding release_lease
  release_kept course actor token ls found other =
      kept_row_keep on (λ x. not (has_token course actor token x)) ls l found (ground arith)

  -- One call of another user.
  pub call_kept :
      (c : LeaseCall) (ls : List LeaseRow)
      → HasDistinctIds ls
      → first_row (is_on on) ls ≡ some l
      → text_eq l.holder_user_id (caller c) ≡ false
      → first_row (is_on on) (after_call c now ls) ≡ some l
  unfolding after_call
  call_kept (acquires input course actor fresh) ls d found other =
      acquire_kept input course actor fresh ls d found other
  call_kept (beats course actor token) ls d found other =
      heartbeat_kept course actor token ls d found other
  call_kept (releases course actor token) ls d found other =
      release_kept course actor token ls found other
