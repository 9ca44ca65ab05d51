-- ===== src/Auth/Limiter/Laws.antt =====
-- The laws of the login limiter: what one failure changes, and how large the map gets.
use recodarr.Prelude.{
  subst, text_eq_iff, text_eq_refl, ℕ, ◌+◌, ◌-◌, ◌*◌, ◌≤◌, ◌<◌, ◌≡◌, refl, ap, Bool, true, false,
  ◌||◌, Text, text_eq, [], ◌∷◌, Option, none, some, length, ltb, if◌then◌else◌, arith, Bool-cases,
  Option-cases, inl, inr,
}
use recodarr.Auth.Limiter.{
  is_empty, lookup, without, Entries, Entry, oldest_from, evict_oldest, sweep, make_room,
  register_failure, allow, backoff_for, failed_again, no_entry, max_entries, second,
}

-- The waiting time never falls with the number of failures, and is at most five minutes.
pub backoff_for_monotone :
    (m n : ℕ) → m ≤ n → (backoff_for m ≤ backoff_for n) × (backoff_for n ≤ 300 * second)
unfolding backoff_for
backoff_for_monotone m n h = ground arith

-- The entry that a failure counts in.
abbrev pub or_new : Option Entry → Entry
or_new none = no_entry
or_new (some e) = e

-- The failures of a key so far.
abbrev pub failures_of : Option Entry → ℕ
failures_of o = (or_new o).failures

pub lookup-register_failure :
    (key : Text) (now : ℕ) (l : Entries)
    → lookup key (register_failure key now l) ≡ some (failed_again now (or_new (lookup key l)))
unfolding register_failure
lookup-register_failure key now l = elim (Option-cases (lookup key l)) [
  | inl e ↦ rw (e, register_failure, text_eq_refl key) refl
  | inr (x, e) ↦ rw (e, register_failure, text_eq_refl key) refl
]

-- After a failure at `now` the key is refused until the waiting time for its failures is over, and is
-- told how long that is; then it is allowed.
pub allow-register_failure :
    (key : Text) (now t : ℕ) (l : Entries)
    → allow key t (register_failure key now l) ≡ (
        let ready = now + backoff_for (failures_of (lookup key l) + 1) in
        if ltb t ready then (false, ready - t) else (true, 0))
unfolding allow
allow-register_failure key now t l = rw (lookup-register_failure key now l) refl

without-other :
    (key other : Text) (l : Entries)
    → text_eq key other ≡ false
    → lookup other (without key l) ≡ lookup other l
without-other key other [] h = refl
without-other key other ((k, x0) ∷ l) h = elim (Bool-cases (text_eq k key)) [
  | inl e ↦ rw (e, (text_eq_iff k key).0 e, h) (without-other key other l h)
  | inr e ↦ rw e (ap (λ x. if text_eq k other then some x0 else x) (without-other key other l h))
]

abbrev pub has_key : Text → Entries → Bool
has_key key [] = false
has_key key ((k, e) ∷ l) = text_eq k key || has_key key l

oldest_from-has_key :
    (key : Text) (t : ℕ) (l : Entries)
    → (text_eq key (oldest_from key t l) || has_key (oldest_from key t l) l) ≡ true
unfolding oldest_from
oldest_from-has_key key t [] = ground (arith, text_eq_refl key)
oldest_from-has_key key t ((k, e) ∷ l) =
    ground (arith, oldest_from-has_key key t l, oldest_from-has_key k e.next_ok l)

length-without : (key : Text) (l : Entries) → length (without key l) ≤ length l
length-without key [] = omega arith
length-without key ((k, e) ∷ l) = ground (arith, length-without key l)

without-shorter :
    (key : Text) (l : Entries) → has_key key l ≡ true → length (without key l) < length l
without-shorter key [] h = cc
without-shorter key ((k, e) ∷ l) h = ground (arith, without-shorter key l, length-without key l)

length-sweep : (now : ℕ) (l : Entries) → length (sweep now l) ≤ length l
unfolding sweep
length-sweep now [] = omega arith
length-sweep now ((k, e) ∷ l) = ground (arith, length-sweep now l)

pub lookup-without : (key : Text) (l : Entries) → lookup key (without key l) ≡ none
lookup-without key [] = refl
lookup-without key ((k, x) ∷ l) = ground (arith, lookup-without key l)

sweep-has_key :
    (key : Text) (now : ℕ) (l : Entries) → has_key key l ≡ false → has_key key (sweep now l) ≡ false
unfolding sweep
sweep-has_key key now [] h = refl
sweep-has_key key now ((k, e) ∷ l) h = ground (arith, sweep-has_key key now l)

is_empty_nil : (key : Text) → is_empty key ≡ true → key ≡ []
is_empty_nil [] h = refl
is_empty_nil (c ∷ s) h = cc

evict_oldest-shorter :
    (l : Entries) → has_key [] l ≡ false → 0 < length l → length (evict_oldest l) < length l
unfolding evict_oldest
evict_oldest-shorter [] h p = absurd (omega arith)
evict_oldest-shorter ((k, x) ∷ l) h p = elim (Bool-cases (is_empty (oldest_from k x.next_ok l))) [
  | inl e ↦ absurd (cc (h, subst (λ r. has_key r ((k, x) ∷ l) ≡ true) (is_empty_nil _ e) found))
  | inr e ↦ rw e (without-shorter (oldest_from k x.next_ok l) ((k, x) ∷ l) found)
]
  where
    found : has_key (oldest_from k x.next_ok l) ((k, x) ∷ l) ≡ true
    found = oldest_from-has_key k x.next_ok l

-- Making room for a new key leaves less than the largest number of entries, if no key is empty.
make_room-length :
    (now : ℕ) (l : Entries)
    → has_key [] l ≡ false
    → length l ≤ max_entries
    → length (make_room now l) < max_entries
unfolding make_room
make_room-length now l h b =
    ground
      (arith, length-sweep now l, evict_oldest-shorter (sweep now l) (sweep-has_key [] now l h))

-- A key that is there makes room for itself.
without-key :
    (key : Text) (l : Entries) (x : Entry)
    → lookup key l ≡ some x
    → length (without key l) < length l
without-key key [] x h = cc
without-key key ((k, y) ∷ l) x h = ground (arith, without-key key l x, length-without key l)

without-absent :
    (other key : Text) (l : Entries)
    → has_key other l ≡ false
    → has_key other (without key l) ≡ false
without-absent other key [] h = refl
without-absent other key ((k, x) ∷ l) h = ground (arith, without-absent other key l)

evict_oldest-absent :
    (other : Text) (l : Entries) → has_key other l ≡ false → has_key other (evict_oldest l) ≡ false
unfolding evict_oldest
evict_oldest-absent other [] h = h
evict_oldest-absent other ((k, x) ∷ l) h =
    ground (arith, without-absent other (oldest_from k x.next_ok l) ((k, x) ∷ l) h)

-- No key is empty, and there are no more entries than the limit.
pub record IsBounded (l : Entries) : Type 0 where
  pub named : has_key [] l ≡ false
  pub bounded : length l ≤ max_entries

make_room-absent :
    (other : Text) (now : ℕ) (l : Entries)
    → has_key other l ≡ false
    → has_key other (make_room now l) ≡ false
unfolding make_room
make_room-absent other now l h =
    ground (arith, sweep-has_key other now l h, evict_oldest-absent other (sweep now l))

named_key : (key : Text) → is_empty key ≡ false → text_eq key [] ≡ false
unfolding text_eq
named_key [] h = cc
named_key (c ∷ s) h = refl

-- A failure of a key that is not empty keeps the map within its limit.
pub register_failure-IsBounded :
    (key : Text) (now : ℕ) (l : Entries)
    → is_empty key ≡ false
    → IsBounded l
    → IsBounded (register_failure key now l)
unfolding register_failure make_room
register_failure-IsBounded key now l k v = record {
  named = elim (Option-cases (lookup key l)) [
    | inl e ↦ rw (e, register_failure, named_key key k, make_room-absent [] now l v.named) refl
    | inr (x, e) ↦ rw (e, register_failure, named_key key k) (without-absent [] key l v.named)
  ];
  bounded = elim (Option-cases (lookup key l)) [
    | inl e ↦ rw (e, register_failure) (omega (arith, make_room-length now l v.named v.bounded))
    | inr (x, e) ↦ rw (e, register_failure) (omega (arith, without-key key l x e, v.bounded))
  ];
}

-- A failure of a key that has an entry changes the entry of no other key.
pub register_failure-other :
    (key other : Text) (now : ℕ) (l : Entries) (x : Entry)
    → lookup key l ≡ some x
    → text_eq key other ≡ false
    → lookup other (register_failure key now l) ≡ lookup other l
unfolding register_failure
register_failure-other key other now l x e h =
    rw (e, register_failure, h) (without-other key other l h)
