-- ===== src/Worker/Control/Entries.antt =====
-- internal/job/job.go: the map of the encodes and the channels, entry by entry.
use recodarr.Prelude.{
  ==_iff, length-drop, ltb→lt, on_if, map, length-append, All-imp, subst, ℕ, ◌≤◌, ◌≡◌, refl, sym,
  ap, true, false, not, ◌||◌, List, [], ◌∷◌, length, keep, any_of, All, ltb, ◌==◌, if◌then◌else◌,
  arith, Bool-cases, inl, inr,
}
use recodarr.Worker.Control.{
  ProgressEvent, ActiveEncode, Channel, channel_capacity, has_key, set_key, change_key, offer,
  offer_all, take_first, add_ids, cancel_each, ids_of,
}

pub All-change_key :
    {A : Type 0} (P : ℕ × A → Type 0) (k : ℕ) (f : A → A) (l : List (ℕ × A))
    → ((a : A) → P (k, a) → P (k, f a))
    → All P l
    → All P (change_key k f l)
unfolding change_key
All-change_key P k f [] g h = tt
All-change_key P k f ((i, a) ∷ l) g h = elim (Bool-cases (i == k)) [
  | inl e ↦ rw e (
    subst (λ j. P (j, f a)) (sym ((==_iff i k).0 e))
        (g a (subst (λ j. P (j, a)) ((==_iff i k).0 e) h.0)),
    All-change_key P k f l g h.1,
  )
  | inr e ↦ rw e (h.0, All-change_key P k f l g h.1)
]

pub has_key-change_key :
    {A : Type 0} (i k : ℕ) (f : A → A) (l : List (ℕ × A))
    → has_key i (change_key k f l) ≡ has_key i l
unfolding change_key
has_key-change_key i k f [] = refl
has_key-change_key i k f ((j, a) ∷ l) = elim (Bool-cases (j == k)) [
  | inl e ↦ rw e (ap (λ b. j == i || b) (has_key-change_key i k f l))
  | inr e ↦ rw e (ap (λ b. j == i || b) (has_key-change_key i k f l))
]

pub All-set_key :
    {A : Type 0} (P : ℕ × A → Type 0) (k : ℕ) (a : A) (l : List (ℕ × A))
    → P (k, a)
    → All P l
    → All P (set_key k a l)
unfolding set_key
All-set_key P k a [] p h = (p, tt)
All-set_key P k a ((i, b) ∷ l) p h =
    on_if (All P) (i == k) (p, h.1) (h.0, All-set_key P k a l p h.1)

pub has_key-set_key :
    {A : Type 0} (i k : ℕ) (a : A) (l : List (ℕ × A))
    → has_key i l ≡ true
    → has_key i (set_key k a l) ≡ true
unfolding set_key
has_key-set_key i k a [] h = cc
has_key-set_key i k a ((j, b) ∷ l) h = ground (arith, h, has_key-set_key i k a l)

pub has_key-keep :
    {A : Type 0} (i k : ℕ) (l : List (ℕ × A))
    → (i == k) ≡ false
    → has_key i l ≡ true
    → has_key i (keep (λ e. not (e.0 == k)) l) ≡ true
has_key-keep i k [] n h = cc
has_key-keep i k ((j, a) ∷ l) n h = ground (arith, n, h, has_key-keep i k l)

pub All-add_ids : (P : ℕ → Type 0) (js is : List ℕ) → All P js → All P is → All P (add_ids js is)
All-add_ids P [] is h k = k
All-add_ids P (j ∷ js) is h k =
    on_if (All P) (any_of (λ i. i == j) (add_ids js is)) (All-add_ids P js is h.1 k)
      (h.0, All-add_ids P js is h.1 k)

module _ {F : Type 0} where
  pub has_key-cancel_each :
      (i : ℕ) (l : List (ℕ × ActiveEncode F)) → has_key i (cancel_each l) ≡ has_key i l
  has_key-cancel_each i [] = refl
  has_key-cancel_each i ((j, a) ∷ l) = ap (λ b. j == i || b) (has_key-cancel_each i l)

  pub All-cancel_each :
      (l : List (ℕ × ActiveEncode F))
      → All (λ e. e.1.last_progress.job_id ≡ e.0) l
      → All (λ e. e.1.last_progress.job_id ≡ e.0) (cancel_each l)
  All-cancel_each [] h = tt
  All-cancel_each (e ∷ l) h = (h.0, All-cancel_each l h.1)

  pub if_offered :
      (ev : ProgressEvent F) (ch : Channel F)
      → ltb (length ch.buffer) channel_capacity ≡ true
      → length (offer ev ch).buffer ≤ channel_capacity
  unfolding offer
  if_offered ev ch e =
      rw e (omega (arith, length-append ch.buffer (ev ∷ []), ltb→lt (length ch.buffer) 16 e))

  pub length-offer :
      (ev : ProgressEvent F) (ch : Channel F)
      → length ch.buffer ≤ channel_capacity
      → length (offer ev ch).buffer ≤ channel_capacity
  unfolding offer
  length-offer ev ch h = elim (Bool-cases (ltb (length ch.buffer) channel_capacity)) [
    | inl e ↦ if_offered ev ch e
    | inr e ↦ rw e h
  ]

  pub All-offer :
      (ev : ProgressEvent F) (l : List (Channel F))
      → All (λ ch. length ch.buffer ≤ channel_capacity) l
      → All (λ ch. length ch.buffer ≤ channel_capacity) (map (offer ev) l)
  All-offer ev [] h = tt
  All-offer ev (ch ∷ l) h = (length-offer ev ch h.0, All-offer ev l h.1)

  pub length-offer_all :
      (evs : List (ProgressEvent F)) (ch : Channel F)
      → length ch.buffer ≤ channel_capacity
      → length (offer_all evs ch).buffer ≤ channel_capacity
  length-offer_all [] ch h = h
  length-offer_all (ev ∷ evs) ch h = length-offer_all evs (offer ev ch) (length-offer ev ch h)

  pub All-receive :
      (i : ℕ) (l : List (Channel F))
      → All (λ ch. length ch.buffer ≤ channel_capacity) l
      → All
          (λ ch. length ch.buffer ≤ channel_capacity)
          (map (λ ch. if ch.id == i then take_first ch else ch) l)
  All-receive i [] h = tt
  All-receive i (ch ∷ l) h = (
    on_if (λ (c : Channel F). length c.buffer ≤ channel_capacity) (ch.id == i)
        (omega (arith, length-drop 1 ch.buffer, h.0)) h.0,
    All-receive i l h.1,
  )

  pub All-ids_of : (l : List (ℕ × ActiveEncode F)) → All (λ i. has_key i l ≡ true) (ids_of l)
  All-ids_of [] = tt
  All-ids_of (e ∷ l) = (
    ground arith,
    All-imp (λ i. has_key i l ≡ true) (λ i. has_key i (e ∷ l) ≡ true) (ids_of l)
        (λ i h. ground (arith, h)) (All-ids_of l),
  )
