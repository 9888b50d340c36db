-- ===== src/Handles/Freed.antt =====
-- What the destructors free, over any sequence of operations on pointers.
use mathlib.Core.Option.{none-ne-some, some_inj}
use duckdb_delta.Prelude.{
  ℕ, zero, suc, ◌+◌, ◌≤◌, ◌==◌, ◌≡◌, ◌∙◌, refl, ap, Bool, Bool-cases, true, false, inl, inr, Option,
  none, some, List, [], ◌∷◌, ◌++◌, set, get_elem?, if◌then◌else◌, arith,
}
use duckdb_delta.Handles.{
  UniqueKernelPointer, default_pointer, take_ownership, move_construct, move_assign, destroy,
  freed_if,
}

-- The pointers of a program, by place, and the handles freed so far.
pub record Program : Type 0 where
  pub pointers : List UniqueKernelPointer
  pub freed : List ℕ

-- A pointer that takes ownership of a handle, one that is made by moving another, the assignment by moving
-- another, and the end of one. What names a place that is not there does nothing.
pub data Operation : Type 0 where
  takes : ℕ → Operation
  makes_from ends : ℕ → Operation
  assigns : ℕ → ℕ → Operation

abbrev make_from : ℕ → Option UniqueKernelPointer → Program → Program
make_from i none s = s
make_from i (some p) s =
    let (new, old) = move_construct p in record s { pointers = set s.pointers i old ++ new ∷ [] }

abbrev assign_to :
    ℕ → ℕ → Option UniqueKernelPointer → Option UniqueKernelPointer → Program → Program
assign_to i j (some p) (some q) s =
    let (this, other) = move_assign p q in
    record s { pointers = if i == j then s.pointers else set (set s.pointers i this) j other }
assign_to i j _ _ s = s

abbrev end_of : ℕ → Option UniqueKernelPointer → Program → Program
end_of i none s = s
end_of i (some p) s = record {
  pointers = set s.pointers i default_pointer;
  freed = s.freed ++ destroy p;
}

unfoldable pub operate : Operation → Program → Program
unfolding move_construct move_assign destroy take_ownership default_pointer
operate (takes h) s = record s { pointers = s.pointers ++ take_ownership h ∷ [] }
operate (makes_from i) s = make_from i (get_elem? s.pointers i) s
operate (ends i) s = end_of i (get_elem? s.pointers i) s
operate (assigns i j) s = assign_to i j (get_elem? s.pointers i) (get_elem? s.pointers j) s

unfoldable pub operate_all : List Operation → Program → Program
unfolding operate
operate_all [] s = s
operate_all (o ∷ os) s = operate_all os (operate o s)

-- How often a handle is in a list, is owned, and is handed over.
abbrev pub count : ℕ → List ℕ → ℕ
count h [] = 0
count h (x ∷ xs) = if x == h then suc (count h xs) else count h xs

abbrev owns : ℕ → Option ℕ → ℕ
owns h none = 0
owns h (some p) = if p == h then 1 else 0

abbrev owned : ℕ → List UniqueKernelPointer → ℕ
owned h [] = 0
owned h (p ∷ ps) = owns h p.ptr + owned h ps

abbrev pub taken : ℕ → List Operation → ℕ
taken h [] = 0
taken h (takes p ∷ os) = (if p == h then 1 else 0) + taken h os
taken h (makes_from i ∷ os) = taken h os
taken h (ends i ∷ os) = taken h os
taken h (assigns i j ∷ os) = taken h os

count-append : (h : ℕ) (xs ys : List ℕ) → count h (xs ++ ys) ≡ count h xs + count h ys
count-append h [] ys = omega arith
count-append h (x ∷ xs) ys = ground (arith, count-append h xs ys)

owned-append :
    (h : ℕ) (ps qs : List UniqueKernelPointer) → owned h (ps ++ qs) ≡ owned h ps + owned h qs
owned-append h [] qs = omega arith
owned-append h (p ∷ ps) qs = omega (arith, owned-append h ps qs)

owned-set :
    (h i : ℕ) (ps : List UniqueKernelPointer) (p q : UniqueKernelPointer)
    → get_elem? ps i ≡ some p
    → owned h (set ps i q) + owns h p.ptr ≡ owned h ps + owns h q.ptr
owned-set h i [] p q e = absurd (none-ne-some p e)
owned-set h zero (r ∷ ps) p q e =
    let same : owns h r.ptr ≡ owns h p.ptr = ap (λ x. owns h x.ptr) (some_inj.0 e) in
    omega (arith, same)
owned-set h (suc i) (r ∷ ps) p q e = omega (arith, owned-set h i ps p q e)

get_elem?-set_other :
    {A : Type 0} (i j : ℕ) (xs : List A) (x : A)
    → (i == j) ≡ false
    → get_elem? (set xs i x) j ≡ get_elem? xs j
get_elem?-set_other i j [] x h = refl
get_elem?-set_other zero zero (y ∷ xs) x h = ground (h, arith)
get_elem?-set_other zero (suc j) (y ∷ xs) x h = refl
get_elem?-set_other (suc i) zero (y ∷ xs) x h = refl
get_elem?-set_other (suc i) (suc j) (y ∷ xs) x h = get_elem?-set_other i j xs x (ground arith)

count-freed_if : (h : ℕ) (o : Option ℕ) (b : Bool) → count h (freed_if o b) ≤ owns h o
count-freed_if h none b = omega arith
count-freed_if h (some p) true = ground arith
count-freed_if h (some p) false = ground arith

-- How often a handle is owned or freed.
abbrev measure : ℕ → Program → ℕ
measure h s = count h s.freed + owned h s.pointers

make_from-measure :
    (h i : ℕ) (o : Option UniqueKernelPointer) (s : Program)
    → get_elem? s.pointers i ≡ o
    → measure h (make_from i o s) ≡ measure h s
unfolding move_construct
make_from-measure h i none s e = refl
make_from-measure h i (some p) s e =
    let old : UniqueKernelPointer = record p { ptr = none } in
    let new : UniqueKernelPointer = record { ptr = p.ptr; free = false } in
    omega
      (arith, owned-append h (set s.pointers i old) (new ∷ []), owned-set h i s.pointers p old e)

end_of-measure :
    (h i : ℕ) (o : Option UniqueKernelPointer) (s : Program)
    → get_elem? s.pointers i ≡ o
    → measure h (end_of i o s) ≤ measure h s
unfolding destroy default_pointer
end_of-measure h i none s e = omega arith
end_of-measure h i (some p) s e = omega (
  arith,
  owned-set h i s.pointers p default_pointer e,
  count-append h s.freed (freed_if p.ptr p.free),
  count-freed_if h p.ptr p.free,
)

assign_to-measure :
    (h i j : ℕ) (o r : Option UniqueKernelPointer) (s : Program)
    → get_elem? s.pointers i ≡ o
    → get_elem? s.pointers j ≡ r
    → measure h (assign_to i j o r s) ≡ measure h s
unfolding move_assign
assign_to-measure h i j none r s e f = refl
assign_to-measure h i j (some p) none s e f = refl
assign_to-measure h i j (some p) (some q) s e f = elim (Bool-cases (i == j)) [
  | inl g ↦ rw g refl
  | inr g ↦ rw g (
      let first = owned-set h i s.pointers p q e in
      let there = get_elem?-set_other i j s.pointers q g ∙ f in
      let second = owned-set h j (set s.pointers i q) q p there in omega (arith, first, second))
]

operate-measure :
    (h : ℕ) (o : Operation) (s : Program) → measure h (operate o s) ≤ measure h s + taken h (o ∷ [])
unfolding operate take_ownership
operate-measure h (takes p) s =
    omega (arith, owned-append h s.pointers (record { ptr = some p; free = true } ∷ []))
operate-measure h (makes_from i) s =
    omega (arith, make_from-measure h i (get_elem? s.pointers i) s refl)
operate-measure h (ends i) s = omega (arith, end_of-measure h i (get_elem? s.pointers i) s refl)
operate-measure h (assigns i j) s =
    omega
      (arith, assign_to-measure h i j (get_elem? s.pointers i) (get_elem? s.pointers j) s refl refl)

taken-cons :
    (h : ℕ) (o : Operation) (os : List Operation) → taken h (o ∷ os) ≡ taken h (o ∷ []) + taken h os
taken-cons h (takes p) os = omega arith
taken-cons h (makes_from i) os = omega arith
taken-cons h (ends i) os = omega arith
taken-cons h (assigns i j) os = omega arith

operate_all-measure :
    (h : ℕ) (os : List Operation) (s : Program)
    → measure h (operate_all os s) ≤ measure h s + taken h os
unfolding operate_all
operate_all-measure h [] s = omega arith
operate_all-measure h (o ∷ os) s =
    omega (arith, operate_all-measure h os (operate o s), operate-measure h o s, taken-cons h o os)

abbrev pub nothing : Program
nothing = record { pointers = []; freed = [] }

-- Whatever is done with the pointers, no handle is freed more often than it was handed to a pointer: a
-- handle that was handed over once is never freed twice.
pub operate_all-freed :
    (h : ℕ) (os : List Operation) → count h (operate_all os nothing).freed ≤ taken h os
operate_all-freed h os = omega (arith, operate_all-measure h os nothing)

freed_if-none : (o : Option ℕ) → freed_if o false ++ [] ≡ []
freed_if-none none = refl
freed_if-none (some h) = refl

-- A pointer that another one is moved into does not free its handle, and neither does the other: the
-- handle leaks.
pub move_construct_leaks :
    (p : UniqueKernelPointer)
    → destroy ((move_construct p).0) ++ destroy ((move_construct p).1) ≡ []
unfolding destroy move_construct
move_construct_leaks p = freed_if-none p.ptr
