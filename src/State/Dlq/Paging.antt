-- ===== src/State/Dlq/Paging.antt =====
-- Reading the dead-letter table page by page.
use rdstail.Prelude.{
  ℕ, ◌+◌, ◌<◌, ◌≤◌, ◌==◌, ◌≡◌, refl, subst, not, none, List, [], ◌∷◌, Bytes, IsIn, IsIn-cases,
  first, further, arith, keep_if, length, take, map, Bool-cases, inl, inr,
}
use rdstail.Failure.{ok}
use rdstail.State.Dlq.{DlqRow, Dlq, DlqQuery, item_of, is_asked, is_of_sink, limit_or_100, dlq_list}
use rdstail.State.Dlq.Order.{IsAscending, IsNumbered, IsAscending-keep_if, order_by_id-IsAscending}

-- The rows that are left for a reader who has come as far as an identifier.
abbrev pub asked : Bytes → ℕ → List DlqRow → List DlqRow
asked s after_id rows = keep_if (is_asked s after_id) rows

-- A page is the next rows in their order.
pub dlq_list-page :
    (d : Dlq) (q : DlqQuery)
    → IsNumbered d
    → dlq_list none d q
      ≡ ok (map item_of (take (limit_or_100 q.limit) (asked q.sink_name q.after_id d.rows)))
unfolding dlq_list
dlq_list-page d q numbered =
    rw
      (order_by_id-IsAscending 0 (asked q.sink_name q.after_id d.rows)
        (IsAscending-keep_if (is_asked q.sink_name q.after_id) 0 d.rows numbered.0))
      refl

asked-all :
    (s : Bytes) (n m low : ℕ) (rows : List DlqRow)
    → IsAscending low rows
    → n ≤ low
    → m ≤ low
    → asked s n rows ≡ asked s m rows
asked-all s n m low [] a h k = refl
asked-all s n m low (r ∷ rows) a h k =
    ground (arith, asked-all s n m r.id rows a.1 (omega (arith, a.0, h)) (omega (arith, a.0, k)))

-- After the first of the rows that are left, the others are left.
pub asked-next :
    (s : Bytes) (n low : ℕ) (rows : List DlqRow) (r : DlqRow) (rest : List DlqRow)
    → IsAscending low rows
    → asked s n rows ≡ r ∷ rest
    → asked s r.id rows ≡ rest
asked-next s n low [] r rest a e = absurd (ground (arith, e))
asked-next s n low (x ∷ rows) r rest a e = elim (Bool-cases (is_asked s n x)) [
  | inl hit ↦
      let same_rows = asked-all s n x.id x.id rows a.1 (ground (arith, hit)) (omega arith) in
      ground (arith, hit, e, same_rows)
  | inr miss ↦
      let e' : asked s n rows ≡ r ∷ rest = ground (arith, miss, e) in
      let above = subst (IsAscending x.id) e' (IsAscending-keep_if (is_asked s n) x.id rows a.1) in
      ground (arith, above.0, asked-next s n x.id rows r rest a.1 e')
]

pub asked-deleted :
    (s : Bytes) (n id : ℕ) (rows : List DlqRow)
    → id ≤ n
    → asked s n (keep_if (λ r. not (r.id == id)) rows) ≡ asked s n rows
asked-deleted s n id [] h = refl
asked-deleted s n id (r ∷ rows) h = ground (arith, asked-deleted s n id rows h)

-- A reader who starts at 0 is asked for all rows of the sink.
pub asked-start :
    (s : Bytes) (n low : ℕ) (rows : List DlqRow)
    → IsAscending low rows
    → n ≤ low
    → asked s n rows ≡ keep_if (is_of_sink s) rows
asked-start s n low [] a h = refl
asked-start s n low (r ∷ rows) a h =
    ground (arith, asked-start s n r.id rows a.1 (omega (arith, a.0, h)), a.0)

without-later :
    (id low : ℕ) (rows : List DlqRow)
    → IsAscending low rows
    → id ≤ low
    → keep_if (λ r. not (r.id == id)) rows ≡ rows
without-later id low [] a h = refl
without-later id low (r ∷ rows) a h =
    ground (arith, without-later id r.id rows a.1 (omega (arith, a.0, h)), a.0)

-- Deleting the next row takes one from the rows of the sink.
pub count-deleted :
    (s : Bytes) (n low : ℕ) (rows : List DlqRow) (r : DlqRow) (rest : List DlqRow)
    → IsAscending low rows
    → asked s n rows ≡ r ∷ rest
    → length (keep_if (is_of_sink s) (keep_if (λ y. not (y.id == r.id)) rows)) + 1
      ≡ length (keep_if (is_of_sink s) rows)
count-deleted s n low [] r rest a e = absurd (ground (arith, e))
count-deleted s n low (x ∷ rows) r rest a e = elim (Bool-cases (is_asked s n x)) [
  | inl hit ↦
      let later = without-later x.id x.id rows a.1 (omega arith) in ground (arith, hit, e, later)
  | inr miss ↦
      let e' : asked s n rows ≡ r ∷ rest = ground (arith, miss, e) in
      let above = subst (IsAscending x.id) e' (IsAscending-keep_if (is_asked s n) x.id rows a.1) in
      ground (arith, above.0, count-deleted s n x.id rows r rest a.1 e')
]

IsAscending-IsIn :
    (low : ℕ) (rows : List DlqRow) (r : DlqRow) → IsAscending low rows → IsIn r rows → low < r.id
IsAscending-IsIn low [] r a nowhere = elim nowhere [ ]
IsAscending-IsIn low (y ∷ rows) r a first = a.0
IsAscending-IsIn low (y ∷ rows) r a (further later) =
    omega (arith, a.0, IsAscending-IsIn y.id rows r a.1 later)

-- A row of the table that has the identifier of the next one is that one.
pub asked-only :
    (s : Bytes) (n low : ℕ) (rows : List DlqRow) (r : DlqRow) (rest : List DlqRow) (u : DlqRow)
    → IsAscending low rows
    → asked s n rows ≡ r ∷ rest
    → IsIn u rows
    → u.id ≡ r.id
    → u ≡ r
asked-only s n low [] r rest u a e here same_id = elim here [ ]
asked-only s n low (x ∷ rows) r rest u a e here same_id = elim (Bool-cases (is_asked s n x)) [
  | inl hit ↦ elim (IsIn-cases here) [
    | inl now ↦ ground (arith, hit, e, now)
    | inr later ↦
        let above = IsAscending-IsIn x.id rows u a.1 later in absurd (ground (arith, hit, e, above))
  ]
  | inr miss ↦
      let e' : asked s n rows ≡ r ∷ rest = ground (arith, miss, e) in
      let above = subst (IsAscending x.id) e' (IsAscending-keep_if (is_asked s n) x.id rows a.1) in
      elim (IsIn-cases here) [
        | inl now ↦ absurd (ground (arith, above.0, same_id, now))
        | inr later ↦ asked-only s n x.id rows r rest u a.1 e' later same_id
      ]
]
