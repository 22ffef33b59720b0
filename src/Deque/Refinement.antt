-- ===== src/Deque/Refinement.antt =====
-- src/deque.ts: the list that a queue represents, and the calls on both.
use mathlib.Core.List.{lookup, map as map_list}
use native.Mathlib.Decide.{ℕ_discrete}
use yasd.Prelude.{
  ℕ, suc, ◌+◌, ◌-◌, ◌≤◌, ◌≡◌, refl, sym, ap, ◌∙◌, false, none, some, List, [], ◌∷◌, ◌++◌, length,
  ◌==◌, arith, length-append, if_rule,
}
use yasd.OrderedMap.Chain.{remove, remove-append}
use yasd.Deque.{Deque, empty, size, put, clear, clear_if_empty, push, shift, pop, drain}
use yasd.Deque.Calls.{
  Op, push_op, shift_op, pop_op, drain_op, clear_op, Reply, count, item, drained, last_of, init_of,
  run_op, list_op, run_all, list_all,
}

module _ {T : Type 0} where
  -- The items with their positions.
  abbrev pub numbered : ℕ → List T → List (ℕ × T)
  numbered h [] = []
  numbered h (x ∷ xs) = (h, x) ∷ numbered (suc h) xs

  pub record Represents (d : Deque T) (xs : List T) : Type 0 where
    pub items : d.items ≡ numbered d.head xs
    pub tail : d.tail ≡ d.head + length xs

  length-numbered : (h : ℕ) (xs : List T) → length (numbered h xs) ≡ length xs
  length-numbered h [] = refl
  length-numbered h (x ∷ xs) = omega (arith, length-numbered (suc h) xs)

  numbered-append :
      (h : ℕ) (xs : List T) (x : T)
      → numbered h (xs ++ x ∷ []) ≡ numbered h xs ++ (h + length xs, x) ∷ []
  numbered-append h [] x = ap (λ n. (n, x) ∷ []) (omega arith)
  numbered-append h (y ∷ xs) x =
      let e : suc h + length xs ≡ h + suc (length xs) = omega arith in
      ap (λ es. (h, y) ∷ es)
        (numbered-append (suc h) xs x ∙ ap (λ n. numbered (suc h) xs ++ (n, x) ∷ []) e)

  lookup-numbered_fresh :
      (k h : ℕ) (xs : List T) → h + length xs ≤ k → lookup ℕ_discrete k (numbered h xs) ≡ none
  unfolding lookup
  lookup-numbered_fresh k h [] le = refl
  lookup-numbered_fresh k h (x ∷ xs) le = ground (arith, lookup-numbered_fresh k (suc h) xs)

  lookup-numbered_below :
      (k h : ℕ) (xs : List T) → suc k ≤ h → lookup ℕ_discrete k (numbered h xs) ≡ none
  unfolding lookup
  lookup-numbered_below k h [] le = refl
  lookup-numbered_below k h (x ∷ xs) le = ground (arith, lookup-numbered_below k (suc h) xs)

  lookup-append_fresh :
      (k : ℕ) (x : T) (es : List (ℕ × T))
      → lookup ℕ_discrete k es ≡ none
      → lookup ℕ_discrete k (es ++ (k, x) ∷ []) ≡ some x
  unfolding lookup
  lookup-append_fresh k x [] h = ground arith
  lookup-append_fresh k x (e ∷ es) h = ground (arith, lookup-append_fresh k x es)

  values-numbered : (h : ℕ) (xs : List T) → map_list (λ e. e.1) (numbered h xs) ≡ xs
  values-numbered h [] = refl
  values-numbered h (x ∷ xs) = ap (λ ys. x ∷ ys) (values-numbered (suc h) xs)

  init-append-last : (x : T) (xs : List T) → init_of x xs ++ last_of x xs ∷ [] ≡ x ∷ xs
  init-append-last x [] = refl
  init-append-last x (y ∷ ys) = ap (λ zs. x ∷ zs) (init-append-last y ys)

  pub empty-Represents : Represents empty []
  empty-Represents = record { items = refl; tail = refl }

  size-Represents : {d : Deque T} {xs : List T} → Represents d xs → size d ≡ length xs
  size-Represents {d} {xs} r = ap length r.items ∙ length-numbered d.head xs

  clear_if_empty-Represents :
      (d : Deque T) (xs : List T) → Represents d xs → Represents (clear_if_empty d) xs
  unfolding clear_if_empty clear
  clear_if_empty-Represents d [] r = rw (size-Represents r) empty-Represents
  clear_if_empty-Represents d (x ∷ xs) r =
      let n : size d ≡ suc (length xs) = size-Represents r in
      if_rule (λ q. Represents q (x ∷ xs)) (size d == 0) (clear d) d (λ h. absurd (ground arith))
        (λ _. r)

  push-Represents :
      (x : T) (d : Deque T) (xs : List T) → Represents d xs → Represents (push x d).1 (xs ++ x ∷ [])
  unfolding push put
  push-Represents x d xs r =
      let h = d.head in
      let fresh : lookup ℕ_discrete d.tail d.items ≡ none =
        rw (r.tail, r.items) (lookup-numbered_fresh (h + length xs) h xs (omega arith)) in
      let e : d.tail ≡ h + length xs = r.tail in
      record {
        items =
            (rw (fresh, put) refl
              ∙ ap (λ es. es ++ (d.tail, x) ∷ []) r.items
              ∙ ap (λ n. numbered h xs ++ (n, x) ∷ []) r.tail)
            ∙ sym (numbered-append h xs x);
        tail = omega (arith, length-append xs (x ∷ []));
      }

  not_empty : (d : Deque T) {n : ℕ} → size d ≡ suc n → (size d == 0) ≡ false
  not_empty d h = ground arith

  lookup_first : (k : ℕ) (x : T) (es : List (ℕ × T)) → lookup ℕ_discrete k ((k, x) ∷ es) ≡ some x
  unfolding lookup
  lookup_first k x es = ground arith

  remove_first : (k : ℕ) (x : T) (es : List (ℕ × T)) → remove ℕ_discrete k ((k, x) ∷ es) ≡ es
  unfolding remove
  remove_first k x es = ground arith

  -- The same reply, and the list that is left is the one that the queue represents.
  abbrev Agrees : Reply T × Deque T → Reply T × List T → Type 0
  Agrees p q = (p.0 ≡ q.0) × Represents p.1 q.1

  push-Agrees :
      (x : T) (d : Deque T) (xs : List T)
      → Represents d xs
      → Agrees (run_op (push_op x) d) (list_op (push_op x) xs)
  unfolding run_op list_op push
  push-Agrees x d xs r =
      let q = push-Represents x d xs r in
      let n = size-Represents q in (ap count (n ∙ omega (arith, length-append xs (x ∷ []))), q)

  shift-Agrees :
      (d : Deque T) (xs : List T)
      → Represents d xs
      → Agrees (run_op shift_op d) (list_op shift_op xs)
  unfolding run_op list_op shift
  shift-Agrees d [] r = let n : size d ≡ 0 = size-Represents r in rw n (refl, r)
  shift-Agrees d (x ∷ xs) r =
      let full : (size d == 0) ≡ false = not_empty d (size-Represents r) in
      let d' = record d { items = remove ℕ_discrete d.head d.items; head = suc d.head } in
      let q : Represents d' xs = record {
        items = rw r.items (remove_first d.head x (numbered (suc d.head) xs));
        tail = r.tail ∙ omega arith;
      } in
      rw (full, shift)
        (
          rw r.items (ap item (lookup_first d.head x (numbered (suc d.head) xs))),
          clear_if_empty-Represents d' xs q,
        )

  pop-Agrees :
      (d : Deque T) (xs : List T) → Represents d xs → Agrees (run_op pop_op d) (list_op pop_op xs)
  unfolding run_op list_op pop
  pop-Agrees d [] r = let n : size d ≡ 0 = size-Represents r in rw n (refl, r)
  pop-Agrees d (x ∷ xs) r =
      let full : (size d == 0) ≡ false = not_empty d (size-Represents r) in
      let ys = init_of x xs in
      let y = last_of x xs in
      let n : suc (length ys) ≡ suc (length xs) =
        omega (arith, length-append ys (y ∷ []), ap length (init-append-last x xs)) in
      let e : d.tail ≡ d.head + suc (length xs) = r.tail in
      let k : d.tail - 1 ≡ d.head + length ys = omega arith in
      let es : d.items ≡ numbered d.head ys ++ (d.tail - 1, y) ∷ [] =
        r.items
        ∙ ap (numbered d.head) (sym (init-append-last x xs))
        ∙ numbered-append d.head ys y
        ∙ ap (λ m. numbered d.head ys ++ (m, y) ∷ []) (sym k) in
      let fresh : lookup ℕ_discrete (d.tail - 1) (numbered d.head ys) ≡ none =
        lookup-numbered_fresh (d.tail - 1) d.head ys (omega arith) in
      let d' = record d { items = remove ℕ_discrete (d.tail - 1) d.items; tail = d.tail - 1 } in
      let q : Represents d' ys = record {
        items =
            ap (remove ℕ_discrete (d.tail - 1)) es
            ∙ remove-append ℕ_discrete (d.tail - 1) y (numbered d.head ys) fresh;
        tail = k;
      } in
      rw (full, pop)
        (
          ap item (
              ap (lookup ℕ_discrete (d.tail - 1)) es
              ∙ lookup-append_fresh (d.tail - 1) y (numbered d.head ys) fresh),
          clear_if_empty-Represents d' ys q,
        )

  op-Agrees :
      (op : Op T) (d : Deque T) (xs : List T)
      → Represents d xs
      → Agrees (run_op op d) (list_op op xs)
  unfolding run_op list_op drain clear
  op-Agrees (push_op x) d xs r = push-Agrees x d xs r
  op-Agrees shift_op d xs r = shift-Agrees d xs r
  op-Agrees pop_op d xs r = pop-Agrees d xs r
  op-Agrees drain_op d xs r = (
    ap drained (ap (λ es. map_list (λ e. e.1) es) r.items ∙ values-numbered d.head xs),
    empty-Represents,
  )
  op-Agrees clear_op d xs r = (refl, empty-Represents)

  -- A queue that represents a list answers every sequence of `push`, `shift`, `pop`, `splice(0)`
  -- and `clear` as the list does: `push` adds at the end and answers the new length, `shift` takes
  -- the first item, `pop` the last, and both answer that there is none when the list is empty.
  pub run_all-list_all :
      (ops : List (Op T)) (d : Deque T) (xs : List T)
      → Represents d xs
      → run_all ops d ≡ list_all ops xs
  unfolding run_all list_all
  run_all-list_all [] d xs r = refl
  run_all-list_all (op ∷ ops) d xs r =
      let a = op-Agrees op d xs r in
      let rest = run_all-list_all ops (run_op op d).1 (list_op op xs).1 a.1 in
      ap (λ y. y ∷ run_all ops (run_op op d).1) a.0 ∙ ap (λ ys. (list_op op xs).0 ∷ ys) rest
