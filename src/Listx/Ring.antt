-- ===== src/Listx/Ring.antt =====
-- What a ring of headers/listx.h stands for, and how an insertion or a removal changes it.
use sistemi_operativi_proget.Common.{ℕ, ◌≡◌, sym, ◌≢◌, List, [], ◌∷◌, ◌++◌, arith, ◌∙◌}
use sistemi_operativi_proget.Listx.{Memory, link_between, list_del}

abbrev pub Avoids : ℕ → List ℕ → Type 0
Avoids x [] = Unit
Avoids x (y ∷ ys) = (x ≢ y) × Avoids x ys

abbrev pub Distinct : List ℕ → Type 0
Distinct [] = Unit
Distinct (x ∷ xs) = Avoids x xs × Distinct xs

-- From cell `a` the next pointers lead through `xs` to `h`, and the prev pointers lead back.
abbrev pub Links : Memory → ℕ → List ℕ → ℕ → Type 0
Links m a [] h = ((m a).next ≡ h) × ((m h).prev ≡ a)
Links m a (x ∷ xs) h = ((m a).next ≡ x) × ((m x).prev ≡ a) × Links m x xs h

-- The ring with sentinel `h` holds the distinct cells `xs`, in order.
pub record Ring (m : Memory) (h : ℕ) (xs : List ℕ) : Type 0 where
  pub links : Links m h xs h
  pub apart : Avoids h xs
  pub distinct : Distinct xs

abbrev pub first : List ℕ → ℕ → ℕ
first [] h = h
first (y ∷ ys) h = y

abbrev pub last : ℕ → List ℕ → ℕ
last a [] = a
last a (x ∷ xs) = last x xs

pub Avoids-append : (x : ℕ) (xs ys : List ℕ) → Avoids x (xs ++ ys) → Avoids x xs × Avoids x ys
Avoids-append x [] ys h = (tt, h)
Avoids-append x (y ∷ xs) ys h = let rest = Avoids-append x xs ys h.1 in ((h.0, rest.0), rest.1)

pub Avoids-join : (x : ℕ) (xs ys : List ℕ) → Avoids x xs → Avoids x ys → Avoids x (xs ++ ys)
Avoids-join x [] ys h k = k
Avoids-join x (y ∷ xs) ys h k = (h.0, Avoids-join x xs ys h.1 k)

pub ne-last : (a x : ℕ) (xs : List ℕ) → a ≢ x → Avoids a xs → a ≢ last x xs
ne-last a x [] n h = n
ne-last a x (y ∷ xs) n h = ne-last a y xs h.0 h.1

pub ne-first : (a h : ℕ) (ys : List ℕ) → a ≢ h → Avoids a ys → a ≢ first ys h
ne-first a h [] n k = n
ne-first a h (y ∷ ys) n k = k.0

pub next-first : (m : Memory) (a h : ℕ) (xs : List ℕ) → Links m a xs h → (m a).next ≡ first xs h
next-first m a h [] l = l.0
next-first m a h (x ∷ xs) l = l.0

pub prev-last : (m : Memory) (a h : ℕ) (xs : List ℕ) → Links m a xs h → (m h).prev ≡ last a xs
prev-last m a h [] l = l.1
prev-last m a h (x ∷ xs) l = prev-last m x h xs l.2

abbrev Agree : Memory → Memory → List ℕ → Type 0
Agree m m' [] = Unit
Agree m m' (x ∷ xs) = ((m' x).next ≡ (m x).next) × ((m' x).prev ≡ (m x).prev) × Agree m m' xs

Links-frame :
    (m m' : Memory) (a h : ℕ) (xs : List ℕ)
    → (m' a).next ≡ (m a).next
    → (m' h).prev ≡ (m h).prev
    → Agree m m' xs
    → Links m a xs h
    → Links m' a xs h
Links-frame m m' a h [] e f g l = (e ∙ l.0, f ∙ l.1)
Links-frame m m' a h (x ∷ xs) e f g l = (e ∙ l.0, g.1 ∙ l.1, Links-frame m m' x h xs g.0 f g.2 l.2)

-- Two memories that differ at most in the next field of `p`, the prev field of `n`, and `e`.
record Near (m m' : Memory) (e p n : ℕ) : Type 0 where
  next_same : (a : ℕ) → a ≢ p → a ≢ e → (m' a).next ≡ (m a).next
  prev_same : (a : ℕ) → a ≢ n → a ≢ e → (m' a).prev ≡ (m a).prev

Near-Agree :
    (m m' : Memory) (e p n : ℕ) (xs : List ℕ)
    → Near m m' e p n
    → Avoids e xs
    → Avoids p xs
    → Avoids n xs
    → Agree m m' xs
Near-Agree m m' e p n [] c ae ap an = tt
Near-Agree m m' e p n (x ∷ xs) c ae ap an = (
  c.next_same x (λ q. ap.0 (sym q)) (λ q. ae.0 (sym q)),
  c.prev_same x (λ q. an.0 (sym q)) (λ q. ae.0 (sym q)),
  Near-Agree m m' e p n xs c ae.1 ap.1 an.1,
)

-- The cells behind the place of change keep their links.
Near-Links :
    (m m' : Memory) (e p y h : ℕ) (ys : List ℕ)
    → Near m m' e p y
    → Avoids e (y ∷ ys)
    → Avoids p (y ∷ ys)
    → Distinct (y ∷ ys)
    → h ≢ e
    → h ≢ y
    → Links m y ys h
    → Links m' y ys h
Near-Links m m' e p y h ys c ae ap d he hy l =
    Links-frame m m' y h ys (c.next_same y (λ q. ap.0 (sym q)) (λ q. ae.0 (sym q)))
      (c.prev_same h hy he) (Near-Agree m m' e p y ys c ae.1 ap.1 d.0) l

pub record Inserted (m m' : Memory) (e p n : ℕ) : Type 0 where
  near : Near m m' e p n
  next_new : (m' e).next ≡ n
  prev_new : (m' e).prev ≡ p
  next_at : (m' p).next ≡ e
  prev_at : (m' n).prev ≡ e

pub link_between-Inserted :
    (m : Memory) (e p n : ℕ) → e ≢ p → e ≢ n → Inserted m (link_between m e p n) e p n
unfolding link_between
link_between-Inserted m e p n hp hn = record {
  near = record { next_same = λ a ha he. ground arith; prev_same = λ a ha he. ground arith };
  next_new = ground arith;
  prev_new = ground arith;
  next_at = ground arith;
  prev_at = ground arith;
}

pub record Removed (m m' : Memory) (e p n : ℕ) : Type 0 where
  near : Near m m' e p n
  next_at : (m' p).next ≡ n
  prev_at : (m' n).prev ≡ p

pub list_del-Removed :
    (m : Memory) (e : ℕ)
    → e ≢ (m e).prev
    → e ≢ (m e).next
    → Removed m (list_del m e) e (m e).prev (m e).next
unfolding list_del
list_del-Removed m e hp hn = record {
  near = record { next_same = λ a ha he. ground arith; prev_same = λ a ha he. ground arith };
  next_at = ground arith;
  prev_at = ground arith;
}

module _ (m m' : Memory) (e h : ℕ) where
  pub insert_here :
      (a : ℕ) (ys : List ℕ)
      → Inserted m m' e a (first ys h)
      → Avoids e ys
      → h ≢ e
      → Avoids a ys
      → Avoids h ys
      → Distinct ys
      → Links m a ys h
      → Links m' a (e ∷ ys) h
  insert_here a [] c ae he aa ah d l = (c.next_at, c.prev_new, (c.next_new, c.prev_at))
  insert_here a (y ∷ ys) c ae he aa ah d l = (
    c.next_at,
    c.prev_new,
    (c.next_new, c.prev_at, Near-Links m m' e a y h ys c.near ae aa d he ah.0 l.2),
  )

  -- Linking `e` between the last cell of `xs` and the first of `ys` inserts it there.
  pub insert_Links :
      (a : ℕ) (xs ys : List ℕ)
      → Inserted m m' e (last a xs) (first ys h)
      → a ≢ e
      → h ≢ e
      → Avoids e (xs ++ ys)
      → Avoids a (xs ++ ys)
      → Avoids h (xs ++ ys)
      → Distinct (xs ++ ys)
      → Links m a (xs ++ ys) h
      → Links m' a (xs ++ e ∷ ys) h
  insert_Links a [] ys c aa he ae av ah d l = insert_here a ys c ae he av ah d l
  insert_Links a (x ∷ xs) ys c aa he ae av ah d l = (
    c.near.next_same a (ne-last a x xs av.0 (Avoids-append a xs ys av.1).0) aa ∙ l.0,
    c.near.prev_same x (ne-first x h ys (λ q. ah.0 (sym q)) (Avoids-append x xs ys d.0).1)
          (λ q. ae.0 (sym q))
        ∙ l.1,
    insert_Links x xs ys c (λ q. ae.0 (sym q)) he ae.1 d.0 ah.1 d.1 l.2,
  )

  pub remove_here :
      (a : ℕ) (ys : List ℕ)
      → Removed m m' e a (first ys h)
      → Avoids e ys
      → h ≢ e
      → Avoids a ys
      → Avoids h ys
      → Distinct ys
      → Links m e ys h
      → Links m' a ys h
  remove_here a [] c ae he aa ah d l = (c.next_at, c.prev_at)
  remove_here a (y ∷ ys) c ae he aa ah d l =
      (c.next_at, c.prev_at, Near-Links m m' e a y h ys c.near ae aa d he ah.0 l.2)

  -- Joining the neighbours of `e` removes it.
  pub remove_Links :
      (a : ℕ) (xs ys : List ℕ)
      → Removed m m' e (last a xs) (first ys h)
      → a ≢ e
      → h ≢ e
      → Avoids e (xs ++ ys)
      → Avoids a (xs ++ ys)
      → Avoids h (xs ++ ys)
      → Distinct (xs ++ ys)
      → Links m a (xs ++ e ∷ ys) h
      → Links m' a (xs ++ ys) h
  remove_Links a [] ys c aa he ae av ah d l = remove_here a ys c ae he av ah d l.2
  remove_Links a (x ∷ xs) ys c aa he ae av ah d l = (
    c.near.next_same a (ne-last a x xs av.0 (Avoids-append a xs ys av.1).0) aa ∙ l.0,
    c.near.prev_same x (ne-first x h ys (λ q. ah.0 (sym q)) (Avoids-append x xs ys d.0).1)
          (λ q. ae.0 (sym q))
        ∙ l.1,
    remove_Links x xs ys c (λ q. ae.0 (sym q)) he ae.1 d.0 ah.1 d.1 l.2,
  )
