-- ===== src/Listx/Ops.antt =====
-- The operations of headers/listx.h on a ring and on the list that it stands for.
use mathlib.Core.List.{append-nil}
use sistemi_operativi_proget.Common.{
  ℕ, suc, ◌≡◌, refl, sym, ◌≢◌, true, some, List, [], ◌∷◌, ◌++◌, arith, ◌∙◌, length, ap, subst,
  ne→==,
}
use sistemi_operativi_proget.Listx.{
  Memory, init_list_head, link_between, list_add, list_add_tail, list_del, list_empty, cons_some,
  visit, list_for_each,
}
use sistemi_operativi_proget.Listx.Ring.{
  Avoids, Distinct, Links, Ring, first, last, Avoids-append, Avoids-join, ne-last, ne-first,
  next-first, prev-last, Removed, link_between-Inserted, list_del-Removed, insert_Links,
  remove_Links,
}

pub init_list_head-Ring : (m : Memory) (h : ℕ) → Ring (init_list_head m h) h []
unfolding init_list_head
init_list_head-Ring m h = record { links = (ground arith, ground arith); apart = tt; distinct = tt }

Distinct-insert :
    (e : ℕ) (xs ys : List ℕ) → Avoids e (xs ++ ys) → Distinct (xs ++ ys) → Distinct (xs ++ e ∷ ys)
Distinct-insert e [] ys a d = (a, d)
Distinct-insert e (x ∷ xs) ys a d =
    let parts = Avoids-append x xs ys d.0 in
    (
      Avoids-join x xs (e ∷ ys) parts.0 ((λ q. a.0 (sym q)), parts.1),
      Distinct-insert e xs ys a.1 d.1,
    )

Avoids-insert : (h e : ℕ) (xs ys : List ℕ) → h ≢ e → Avoids h (xs ++ ys) → Avoids h (xs ++ e ∷ ys)
Avoids-insert h e xs ys n a =
    let parts = Avoids-append h xs ys a in Avoids-join h xs (e ∷ ys) parts.0 (n, parts.1)

Avoids-remove : (h e : ℕ) (xs ys : List ℕ) → Avoids h (xs ++ e ∷ ys) → Avoids h (xs ++ ys)
Avoids-remove h e xs ys a =
    let parts = Avoids-append h xs (e ∷ ys) a in Avoids-join h xs ys parts.0 parts.1.1

Distinct-remove : (e : ℕ) (xs ys : List ℕ) → Distinct (xs ++ e ∷ ys) → Distinct (xs ++ ys)
Distinct-remove e [] ys d = d.1
Distinct-remove e (x ∷ xs) ys d = (Avoids-remove x e xs ys d.0, Distinct-remove e xs ys d.1)

-- In a list of distinct cells, one of them is not among the others.
Distinct-apart : (e : ℕ) (xs ys : List ℕ) → Distinct (xs ++ e ∷ ys) → Avoids e (xs ++ ys)
Distinct-apart e [] ys d = d.0
Distinct-apart e (x ∷ xs) ys d =
    let split = Avoids-append x xs (e ∷ ys) d.0 in
    ((λ q. split.1.0 (sym q)), Distinct-apart e xs ys d.1)

-- In a ring, the neighbours of a cell are those that stand next to it in the list.
pub Links-around :
    (m : Memory) (h e a : ℕ) (zs ys : List ℕ)
    → Links m a (zs ++ e ∷ ys) h
    → ((m e).prev ≡ last a zs) × ((m e).next ≡ first ys h)
Links-around m h e a [] ys l = (l.1, next-first m e h ys l.2)
Links-around m h e a (z ∷ zs) ys l = Links-around m h e z zs ys l.2

module _ {m : Memory} (h e : ℕ) (xs ys : List ℕ) where
  -- Linking a fresh cell between two neighbours of a ring inserts it between them.
  pub link_between-Ring :
      Ring m h (xs ++ ys)
      → Avoids e (xs ++ ys)
      → e ≢ h
      → Ring (link_between m e (last h xs) (first ys h)) h (xs ++ e ∷ ys)
  link_between-Ring r a n =
      let split = Avoids-append e xs ys a in
      record {
        links =
            insert_Links m _ e h h xs ys
              (link_between-Inserted m e (last h xs) (first ys h) (ne-last e h xs n split.0)
                (ne-first e h ys n split.1))
              (λ q. n (sym q)) (λ q. n (sym q)) a r.apart r.apart r.distinct r.links;
        apart = Avoids-insert h e xs ys (λ q. n (sym q)) r.apart;
        distinct = Distinct-insert e xs ys a r.distinct;
      }

  -- list_del takes a cell out of its ring and leaves the order of the others.
  pub list_del-Ring : Ring m h (xs ++ e ∷ ys) → Ring (list_del m e) h (xs ++ ys)
  list_del-Ring r =
      let split = Avoids-append h xs (e ∷ ys) r.apart in
      let n : e ≢ h = λ q. split.1.0 (sym q) in
      let a = Distinct-apart e xs ys r.distinct in
      let parts = Avoids-append e xs ys a in
      let around = Links-around m h e h xs ys r.links in
      let hp : e ≢ (m e).prev = λ q. ne-last e h xs n parts.0 (q ∙ around.0) in
      let hn : e ≢ (m e).next = λ q. ne-first e h ys n parts.1 (q ∙ around.1) in
      let c : Removed m (list_del m e) e (last h xs) (first ys h) =
        subst (λ p. Removed m (list_del m e) e p (first ys h)) around.0
          (subst (λ q. Removed m (list_del m e) e (m e).prev q) around.1
            (list_del-Removed m e hp hn)) in
      let apart = Avoids-remove h e xs ys r.apart in
      let distinct = Distinct-remove e xs ys r.distinct in
      record {
        links =
            remove_Links m _ e h h xs ys c (λ q. n (sym q)) (λ q. n (sym q)) a apart apart distinct
              r.links;
        apart = apart;
        distinct = distinct;
      }

module _ {m : Memory} (h e : ℕ) (xs : List ℕ) where
  -- list_add puts a cell that is not on the ring first.
  pub list_add-Ring : Ring m h xs → Avoids e xs → e ≢ h → Ring (list_add m e h) h (e ∷ xs)
  unfolding list_add
  list_add-Ring r a n = rw (next-first m h h xs r.links) (link_between-Ring h e [] xs r a n)

  -- list_add_tail puts a cell that is not on the ring last.
  pub list_add_tail-Ring :
      Ring m h xs → Avoids e xs → e ≢ h → Ring (list_add_tail m e h) h (xs ++ e ∷ [])
  unfolding list_add_tail
  list_add_tail-Ring r a n = rw (prev-last m h h xs r.links) (
      link_between-Ring h e xs [] (subst (Ring m h) (sym (append-nil xs)) r)
        (subst (Avoids e) (sym (append-nil xs)) a) n)

visit_end : (m : Memory) (h : ℕ) → visit 1 m h h ≡ some []
unfolding visit
visit_end m h = ground arith

visit_step :
    (f : ℕ) (m : Memory) (x h : ℕ)
    → x ≢ h
    → visit (suc f) m x h ≡ cons_some x (visit f m (m x).next h)
unfolding visit
visit_step f m x h n = rw (ne→== x h n)

visit-Links :
    (m : Memory) (a h : ℕ) (xs : List ℕ)
    → Links m a xs h
    → Avoids h xs
    → visit (suc (length xs)) m (first xs h) h ≡ some xs
visit-Links m a h [] l av = visit_end m h
visit-Links m a h (x ∷ xs) l av =
    visit_step (suc (length xs)) m x h (λ q. av.0 (sym q))
    ∙ ap (cons_some x) (
        ap (λ p. visit (suc (length xs)) m p h) (next-first m x h xs l.2)
        ∙ visit-Links m x h xs l.2 av.1)

-- list_for_each visits the cells of a ring in order, each once, and stops at the sentinel; one
-- round for each cell and one to stop are enough.
pub list_for_each-Ring :
    {m : Memory} (h : ℕ) (xs : List ℕ) → Ring m h xs → list_for_each (suc (length xs)) m h ≡ some xs
unfolding list_for_each
list_for_each-Ring {m} h xs r =
    ap (λ p. visit (suc (length xs)) m p h) (next-first m h h xs r.links)
    ∙ visit-Links m h h xs r.links r.apart

pub list_empty-Ring :
    {m : Memory} (h : ℕ) (xs : List ℕ) → Ring m h xs → (list_empty m h ≡ true) → xs ≡ []
unfolding list_empty
list_empty-Ring h [] r e = refl
list_empty-Ring h (x ∷ xs) r e = absurd (r.apart.0 (ground (arith, r.links.0)))
