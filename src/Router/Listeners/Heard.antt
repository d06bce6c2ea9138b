-- ===== src/Router/Listeners/Heard.antt =====
-- Who is called, from what was registered.
use eos_reimagined.Base.{
  ℕ, ◌≡◌, refl, sym, ◌∙◌, Bool, false, not, ◌||◌, ◌&&◌, Option, none, some, List, [], ◌∷◌, ◌++◌,
  ◌==◌, if◌then◌else◌, arith, Bool-cases, inl, inr,
}
use eos_reimagined.Base.Assoc.{lookup, insert, lookup-insert, lookup-erase}
use eos_reimagined.Router.Listeners.{
  Listeners, in_bucket, bucket_of, register_listener, erase_first, store_bucket, erase_from,
  unregister_listener, not_null, called_of, dispatch,
}

-- Each once.
abbrev pub Once : List ℕ → Type 0
Once [] = Unit {0}
Once (x ∷ xs) = (in_bucket x xs ≡ false) × Once xs

in_bucket-append : (l x : ℕ) (b : List ℕ) → in_bucket l (b ++ x ∷ []) ≡ (in_bucket l b || (x == l))
in_bucket-append l x [] = ground arith
in_bucket-append l x (y ∷ b) = ground (arith, in_bucket-append l x b)

append-Once : (x : ℕ) (b : List ℕ) → Once b → in_bucket x b ≡ false → Once (b ++ x ∷ [])
append-Once x [] once new = (refl, tt)
append-Once x (y ∷ b) (other, once) new =
    (ground (arith, in_bucket-append y x b, other, new), append-Once x b once (ground (arith, new)))

in_bucket-erase_first :
    (l x : ℕ) (b : List ℕ)
    → Once b
    → in_bucket l (erase_first x b) ≡ (in_bucket l b && not (x == l))
unfolding erase_first
in_bucket-erase_first l x [] once = refl
in_bucket-erase_first l x (y ∷ b) (other, once) =
    ground (arith, in_bucket-erase_first l x b once, other)

erase_first-Once : (x : ℕ) (b : List ℕ) → Once b → Once (erase_first x b)
unfolding erase_first
erase_first-Once x [] once = tt
erase_first-Once x (y ∷ b) (other, once) = elim (Bool-cases (y == x)) [
  | inl here ↦ rw here once
  | inr there ↦
      rw there (ground (arith, in_bucket-erase_first y x b once, other), erase_first-Once x b once)
]

in_bucket-not_null :
    (l : ℕ) (b : List ℕ) → in_bucket l (not_null b) ≡ (in_bucket l b && not (l == 0))
unfolding not_null
in_bucket-not_null l [] = refl
in_bucket-not_null l (y ∷ b) = ground (arith, in_bucket-not_null l b)

erase_first_absent : (x : ℕ) (b : List ℕ) → in_bucket x b ≡ false → erase_first x b ≡ b
unfolding erase_first
erase_first_absent x [] h = refl
erase_first_absent x (y ∷ b) h = ground (arith, erase_first_absent x b)

-- The bucket of a type, empty if there is none.
abbrev bucket : ℕ → Listeners → List ℕ
bucket type m = bucket_of (lookup type m)

called_of-bucket_of : (o : Option (List ℕ)) → called_of o ≡ not_null (bucket_of o)
unfolding called_of bucket_of not_null
called_of-bucket_of none = refl
called_of-bucket_of (some b) = refl

bucket-insert :
    (t t' : ℕ) (new : List ℕ) (m : Listeners)
    → bucket t (insert t' new m) ≡ (if t' == t then new else bucket t m)
unfolding bucket_of
bucket-insert t t' new m = elim (Bool-cases (t' == t)) [
  | inl here ↦ rw (lookup-insert t' t new m, here) refl
  | inr there ↦ rw (lookup-insert t' t new m, there) refl
]

bucket-store_bucket :
    (t t' : ℕ) (new : List ℕ) (m : Listeners)
    → bucket t (store_bucket t' new m) ≡ (if t' == t then new else bucket t m)
unfolding bucket_of store_bucket
bucket-store_bucket t t' (x ∷ new) m = bucket-insert t t' (x ∷ new) m
bucket-store_bucket t t' [] m = elim (Bool-cases (t' == t)) [
  | inl here ↦ rw (lookup-erase t' t m, here) refl
  | inr there ↦ rw (lookup-erase t' t m, there) refl
]

bucket-register_listener :
    (t t' l : ℕ) (m : Listeners)
    → bucket t (register_listener t' l m) ≡ (
        if t' == t && not (l == 0) && not (in_bucket l (bucket t m))
        then bucket t m ++ l ∷ []
        else bucket t m)
unfolding register_listener
bucket-register_listener t t' l m = elim (Bool-cases (l == 0)) [
  | inl null ↦ ground (arith, null)
  | inr real ↦ ground (
    arith,
    real,
    bucket-insert t t' (if in_bucket l (bucket t' m) then bucket t' m else bucket t' m ++ l ∷ []) m,
  )
]

bucket-erase_from :
    (t t' l : ℕ) (m : Listeners) (o : Option (List ℕ))
    → lookup t' m ≡ o
    → bucket t (erase_from t' l m o) ≡ (if t' == t then erase_first l (bucket t m) else bucket t m)
unfolding erase_from bucket_of
bucket-erase_from t t' l m none e = elim (Bool-cases (t' == t)) [
  | inr there ↦ rw there refl
  | inl here ↦
      let same : t' ≡ t = ground (arith, here) in
      let none_here : lookup t m ≡ none = rw same at e in
      unfold erase_first in rw (here, none_here) refl
]
bucket-erase_from t t' l m (some b) e = elim (Bool-cases (in_bucket l b)) [
  | inl held ↦
      rw (held, bucket-store_bucket t t' (erase_first l b) m)
        (elim (Bool-cases (t' == t)) [
          | inr there ↦ rw there refl
          | inl here ↦
              let same : t' ≡ t = ground (arith, here) in
              let found : lookup t m ≡ some b = rw same at e in rw (here, found) refl
        ])
  | inr absent ↦ rw absent (elim (Bool-cases (t' == t)) [
    | inr there ↦ rw there refl
    | inl here ↦
        let same : t' ≡ t = ground (arith, here) in
        let found : lookup t m ≡ some b = rw same at e in
        rw (here, found) (sym (erase_first_absent l b absent))
  ])
]

-- The invariant: each listener stands once in a bucket.
IsTidy : Listeners → Type 0
IsTidy m = (t : ℕ) → Once (bucket t m)

bucket-unregister_listener :
    (t t' l : ℕ) (m : Listeners)
    → bucket t (unregister_listener t' l m)
      ≡ (if t' == t then erase_first l (bucket t m) else bucket t m)
unfolding unregister_listener
bucket-unregister_listener t t' l m = bucket-erase_from t t' l m (lookup t' m) refl

register_listener-IsTidy : (t' l : ℕ) (m : Listeners) → IsTidy m → IsTidy (register_listener t' l m)
unfolding IsTidy
register_listener-IsTidy t' l m tidy t =
    elim (Bool-cases (t' == t && not (l == 0) && not (in_bucket l (bucket t m)))) [
      | inl joins ↦
          rw (bucket-register_listener t t' l m, joins)
            (append-Once l (bucket t m) (tidy t) (ground (arith, joins)))
      | inr stays ↦ rw (bucket-register_listener t t' l m, stays) (tidy t)
    ]

unregister_listener-IsTidy :
    (t' l : ℕ) (m : Listeners) → IsTidy m → IsTidy (unregister_listener t' l m)
unfolding IsTidy
unregister_listener-IsTidy t' l m tidy t = elim (Bool-cases (t' == t)) [
  | inl here ↦
      rw (bucket-unregister_listener t t' l m, here) (erase_first-Once l (bucket t m) (tidy t))
  | inr there ↦ rw (bucket-unregister_listener t t' l m, there) (tidy t)
]

-- Calls in turn, and the specification of who listens: the last call about a listener and a type
-- decides, and null never listens.
pub data ListenerCall : Type 0 where
  call_register : ℕ → ℕ → ListenerCall
  call_unregister : ℕ → ℕ → ListenerCall

unfoldable pub all_called : List ListenerCall → Listeners → Listeners
all_called [] m = m
all_called (call_register t l ∷ cs) m = all_called cs (register_listener t l m)
all_called (call_unregister t l ∷ cs) m = all_called cs (unregister_listener t l m)

abbrev pub listens : ℕ → ℕ → List ListenerCall → Bool → Bool
listens t l [] so_far = so_far
listens t l (call_register t' l' ∷ cs) so_far =
    listens t l cs (so_far || (t' == t && l' == l && not (l == 0)))
listens t l (call_unregister t' l' ∷ cs) so_far =
    listens t l cs (so_far && not (t' == t && l' == l))

in_bucket-dispatch :
    (t l : ℕ) (m : Listeners)
    → in_bucket l (dispatch t m) ≡ (in_bucket l (bucket t m) && not (l == 0))
unfolding dispatch
in_bucket-dispatch t l m = rw (called_of-bucket_of (lookup t m)) (in_bucket-not_null l (bucket t m))

heard-register :
    (t l t' l' : ℕ) (m : Listeners)
    → in_bucket l (dispatch t (register_listener t' l' m))
      ≡ (in_bucket l (dispatch t m) || (t' == t && l' == l && not (l == 0)))
heard-register t l t' l' m = ground (
  arith,
  in_bucket-dispatch t l m,
  in_bucket-dispatch t l (register_listener t' l' m),
  bucket-register_listener t t' l' m,
  in_bucket-append l l' (bucket t m),
)

heard-unregister :
    (t l t' l' : ℕ) (m : Listeners)
    → IsTidy m
    → in_bucket l (dispatch t (unregister_listener t' l' m))
      ≡ (in_bucket l (dispatch t m) && not (t' == t && l' == l))
unfolding IsTidy
heard-unregister t l t' l' m tidy = ground (
  arith,
  in_bucket-dispatch t l m,
  in_bucket-dispatch t l (unregister_listener t' l' m),
  bucket-unregister_listener t t' l' m,
  in_bucket-erase_first l l' (bucket t m) (tidy t),
)

not_null-Once : (b : List ℕ) → Once b → Once (not_null b)
unfolding not_null
not_null-Once [] once = tt
not_null-Once (y ∷ b) (other, once) = elim (Bool-cases (y == 0)) [
  | inl null ↦ rw null (not_null-Once b once)
  | inr real ↦ rw real (ground (arith, in_bucket-not_null y b, other), not_null-Once b once)
]

heard_all :
    (cs : List ListenerCall) (t l : ℕ) (m : Listeners)
    → IsTidy m
    → (in_bucket l (dispatch t (all_called cs m)) ≡ listens t l cs (in_bucket l (dispatch t m)))
      × IsTidy (all_called cs m)
unfolding all_called
heard_all [] t l m tidy = (refl, tidy)
heard_all (call_register t' l' ∷ cs) t l m tidy =
    let (rest, kept) =
      heard_all cs t l (register_listener t' l' m) (register_listener-IsTidy t' l' m tidy) in
    (rest ∙ rw (heard-register t l t' l' m) refl, kept)
heard_all (call_unregister t' l' ∷ cs) t l m tidy =
    let (rest, kept) =
      heard_all cs t l (unregister_listener t' l' m) (unregister_listener-IsTidy t' l' m tidy) in
    (rest ∙ rw (heard-unregister t l t' l' m tidy) refl, kept)

-- After any calls on a new router, a message is given to each listener at most once, and to a listener
-- exactly if the last call about it and the message's type registered it, and it is not null.
pub dispatch_reaches :
    (cs : List ListenerCall) (t l : ℕ)
    → (in_bucket l (dispatch t (all_called cs [])) ≡ listens t l cs false)
      × Once (dispatch t (all_called cs []))
unfolding IsTidy
dispatch_reaches cs t l =
    let (heard, tidy) = heard_all cs t l [] (λ type. unfold bucket_of lookup in tt) in
    (
      heard ∙ (unfold dispatch called_of lookup in refl),
      (unfold dispatch in
          rw (called_of-bucket_of (lookup t (all_called cs []))) (not_null-Once _ (tidy t))),
    )
