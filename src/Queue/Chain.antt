-- ===== src/Queue/Chain.antt =====
-- What a memory with a queue in it stands for: the elements in order, each with its payload.
use rtl_tcp_andro.Base.{
  ◌≡◌, refl, ◌≢◌, Bool, true, false, ◌||◌, Option, none, some, List, [], ◌∷◌, arith, ◌==◌,
}
use rtl_tcp_andro.Queue.Heap.{Ptr, null, Heap}

-- Address and payload of each element.
abbrev pub Cells : Type 0
Cells = List (Ptr × Ptr)

abbrev pub has : Ptr → Cells → Bool
has a [] = false
has a ((p, _) ∷ cs) = (a == p) || has a cs

abbrev pub first : Cells → Ptr
first [] = null
first ((p, _) ∷ cs) = p

abbrev pub last_of : Ptr → Cells → Ptr
last_of p [] = p
last_of p ((q, _) ∷ cs) = last_of q cs

-- The address holds an element with these links and this payload; its `last` is of no account.
abbrev pub Holds : Heap → Ptr → (next prev payload : Ptr) → Type 0
Holds h a next prev payload =
    (l : Ptr) × (h a ≡ some (record { next = next; prev = prev; last = l; payload = payload }))
    × (a ≢ null)

-- The elements `cs` are linked in both directions at distinct addresses; `before` precedes them.
abbrev pub Links : Heap → (before : Ptr) → Cells → Type 0
Links h before [] = Unit {0}
Links h before ((a, v) ∷ cs) = Holds h a (first cs) before v × (has a cs ≡ false) × Links h a cs

-- `*queue = head` is a queue of the elements `cs`: the head knows the last element.
abbrev pub IsQueue : Heap → (head : Ptr) → Cells → Type 0
IsQueue h head [] = head ≡ null
IsQueue h head ((a, v) ∷ cs) =
    (head ≡ a)
    × (h a ≡ some (record { next = first cs; prev = null; last = last_of a cs; payload = v }))
    × Links h null ((a, v) ∷ cs)

-- `g` is `h` but for the addresses of `cs` and `extra`.
abbrev pub SameOutside : Cells → Heap → Heap → Type 0
SameOutside cs h g = (a : Ptr) → has a cs ≡ false → g a ≡ h a

-- A change elsewhere keeps the links.
pub Links-frame :
    (h g : Heap) (before : Ptr) (cs : Cells)
    → Links h before cs
    → ((a : Ptr) → has a cs ≡ true → g a ≡ h a)
    → Links g before cs
Links-frame h g before [] l same = tt
Links-frame h g before ((a, v) ∷ cs) ((q, e, n), out, l) same =
    ((q, ground (arith, same a), n), out, Links-frame h g a cs l (λ b i. ground (arith, same b)))

-- The command does not fault, and its result and memory are as said.
abbrev pub Returns : {A : Type 0} → (A → Heap → Type 0) → Option (A × Heap) → Type 0
Returns P none = ⊥
Returns P (some (a, h)) = P a h

-- What a command that returns gives.
pub Returns-some :
    {A : Type 0} (P : A → Heap → Type 0) (m : Option (A × Heap))
    → Returns P m
    → (a : A) × (h : Heap) × (m ≡ some (a, h)) × P a h
Returns-some P none r = absurd r
Returns-some P (some (a, h)) r = (a, h, refl, r)
