-- ===== src/Entry/Loop/Ends.antt =====
-- The loop of Entry.Loop ends, and its items are the pieces of the slice.
use stacks_encoding_native_j.Prelude.{
  ℕ, zero, suc, ◌+◌, ◌<◌, ◌≡◌, refl, ap, ◌∙◌, arith, List, [], ◌∷◌, ◌++◌, length, length-append,
  true, false, ltb, Outcome, ok, err, panic, hangs, ◌>>=◌, >>=-eq-ok, >>=-eq-hangs, ltb→lt,
  Bool-cases, inl, inr,
}
use stacks_encoding_native_j.Wire.Cursor.{Cursor, position}
use stacks_encoding_native_j.Wire.Frames.{Advances, Advances-refl, Advances-trans}
use stacks_encoding_native_j.Js.{JsValue, JsItems, no_items, item, array}
use stacks_encoding_native_j.Entry.Arguments.{Thrown}
use stacks_encoding_native_j.Entry.Loop.{read_while}

-- A text is cut into pieces, one for each item.
pub data Split (Piece : List ℕ → JsValue → Type 0) : JsItems → List ℕ → Type 0 where
  split_nil : Split Piece no_items []
  split_item :
      {v : JsValue} {items : JsItems} {xs ys : List ℕ}
      → Piece xs v
      → Split Piece items ys
      → Split Piece (item v items) (xs ++ ys)

-- What a pass of the loop does when it returns: it takes a piece that is not empty.
pub record Took (Piece : List ℕ → JsValue → Type 0) (c c' : Cursor) (v : JsValue) : Type 0 where
  pub piece : List ℕ
  pub before : c'.consumed ≡ c.consumed ++ piece
  pub behind : c.rest ≡ piece ++ c'.rest
  pub taken : 0 < length piece
  pub is_piece : Piece piece v

-- What a pass and a whole loop return.
abbrev pub passed : JsValue → Cursor → Outcome Thrown (JsValue × Cursor)
passed v c = ok (v, c)

pub passed-eq : {v w : JsValue} {c d : Cursor} → passed v c ≡ passed w d → (v ≡ w) × (c ≡ d)
passed-eq h = (cc h, cc h)

abbrev pub arrayed : ℕ → JsItems → Outcome Thrown JsValue
arrayed n items = ok (array n items)

pub array-eq :
    {m n : ℕ} {items items' : JsItems}
    → arrayed m items ≡ arrayed n items'
    → (m ≡ n) × (items ≡ items')
array-eq h = (cc h, cc h)

-- A pass that never returns is reached from a cursor, inside the slice.
pub record HangsAt (next : Cursor → Outcome Thrown (JsValue × Cursor)) (len : ℕ) (c : Cursor)
    : Type 0 where
  pub reached : Cursor
  pub advances : Advances c reached
  pub inside : position reached < len
  pub stuck : next reached ≡ hangs

HangsAt-here :
    (next : Cursor → Outcome Thrown (JsValue × Cursor)) (len : ℕ) (c : Cursor)
    → position c < len
    → next c ≡ hangs
    → HangsAt next len c
HangsAt-here next len c l e = record {
  reached = c;
  advances = Advances-refl c;
  inside = l;
  stuck = e;
}

HangsAt-later :
    (next : Cursor → Outcome Thrown (JsValue × Cursor)) (len : ℕ) (c d : Cursor)
    → Advances c d
    → HangsAt next len d
    → HangsAt next len c
HangsAt-later next len c d a h = record {
  reached = h.reached;
  advances = Advances-trans c d h.reached a h.advances;
  inside = h.inside;
  stuck = h.stuck;
}

-- Putting items together returns.
ok-after :
    (o : Outcome Thrown JsItems) (f : JsItems → JsItems)
    → (do items ← o; ok (f items)) ≡ hangs
    → o ≡ hangs
ok-after (ok items) f h = absurd (cc h)
ok-after (err e) f h = absurd (cc h)
ok-after panic f h = absurd (cc h)
ok-after hangs f h = refl

length-eq-zero : (xs : List ℕ) → length xs ≡ 0 → xs ≡ []
length-eq-zero [] h = refl
length-eq-zero (x ∷ xs) h = absurd (omega arith)

module _ (Piece : List ℕ → JsValue → Type 0) (next : Cursor → Outcome Thrown (JsValue × Cursor))
    (takes : (c c' : Cursor) (v : JsValue) → next c ≡ ok (v, c') → Took Piece c c' v) where
  -- The cursor stands in a slice of `len` bytes.
  abbrev Within : ℕ → Cursor → Type 0
  Within len c = length c.consumed + length c.rest ≡ len

  Within-next :
      (len : ℕ) (c c' : Cursor) (v : JsValue) → Took Piece c c' v → Within len c → Within len c'
  Within-next len c c' v t h = omega (
    arith,
    ap length t.before,
    ap length t.behind,
    length-append c.consumed t.piece,
    length-append t.piece c'.rest,
  )

  shorter : (c c' : Cursor) (v : JsValue) → Took Piece c c' v → length c'.rest < length c.rest
  shorter c c' v t = omega (arith, t.taken, ap length t.behind, length-append t.piece c'.rest)

  more :
      (fuel len : ℕ) (c : Cursor)
      → ltb (position c) len ≡ true
      → (do (v, c') ← next c; items ← read_while next fuel len c'; ok (item v items))
        ≡ read_while next (suc fuel) len c
  unfolding read_while
  more fuel len c e = rw (e, read_while) refl

  no_more :
      (fuel len : ℕ) (c : Cursor)
      → ltb (position c) len ≡ false
      → ok no_items ≡ read_while next (suc fuel) len c
  unfolding read_while
  no_more fuel len c e = rw (e, read_while) refl

  -- With more passes than bytes, a loop that never returns has come to a pass that never returns.
  pub read_while-HangsAt :
      (passes len : ℕ) (c : Cursor)
      → Within len c
      → length c.rest < passes
      → read_while next passes len c ≡ hangs
      → HangsAt next len c
  read_while-HangsAt zero len c h l r = absurd (omega arith)
  read_while-HangsAt (suc passes) len c h l r = elim (Bool-cases (ltb (position c) len)) [
    | inl e ↦ elim (>>=-eq-hangs (next c) _ (more passes len c e ∙ r)) [
      | inl stuck ↦ HangsAt-here next len c (ltb→lt (position c) len e) stuck
      | inr ((v, c'), n, rest) ↦
          (let t = takes c c' v n in
            HangsAt-later next len c c' (t.piece, t.before, t.behind)
              (read_while-HangsAt passes len c' (Within-next len c c' v t h)
                (omega (arith, shorter c c' v t))
                (ok-after (read_while next passes len c') (item v) rest)))
    ]
    | inr e ↦ absurd (cc (no_more passes len c e ∙ r))
  ]

  at_rest : (len : ℕ) (c : Cursor) → Within len c → ltb (position c) len ≡ false → c.rest ≡ []
  unfolding position
  at_rest len c h e = length-eq-zero c.rest (ground arith)

  Split-eq :
      {items items' : JsItems} {xs ys : List ℕ}
      → items ≡ items'
      → ys ≡ xs
      → Split Piece items xs
      → Split Piece items' ys
  Split-eq e f h = rw (← e, f) h

  abbrev returned : JsItems → Outcome Thrown JsItems
  returned items = ok items

  item-eq : {items items' : JsItems} → returned items ≡ returned items' → items ≡ items'
  item-eq h = cc h

  -- The items are the pieces of what was left.
  pub read_while-Split :
      (fuel len : ℕ) (c : Cursor) (items : JsItems)
      → Within len c
      → read_while next fuel len c ≡ ok items
      → Split Piece items c.rest
  unfolding read_while
  read_while-Split zero len c items h r = absurd (cc r)
  read_while-Split (suc fuel) len c items h r = elim (Bool-cases (ltb (position c) len)) [
    | inl e ↦
        let ((v, c'), n, rest) = >>=-eq-ok (next c) _ (more fuel len c e ∙ r) in
        let (tail, m, made) = >>=-eq-ok (read_while next fuel len c') _ rest in
        let t = takes c c' v n in
        Split-eq (item-eq made) t.behind
          (split_item t.is_piece (read_while-Split fuel len c' tail (Within-next len c c' v t h) m))
    | inr e ↦ Split-eq (item-eq (no_more fuel len c e ∙ r)) (at_rest len c h e) split_nil
  ]
