-- ===== src/Replay/Pages.antt =====
-- The loops of Run, for whatever is kept by each item.
use rdstail.Prelude.{
  ℕ, zero, suc, ◌+◌, ◌<◌, ◌≤◌, ◌≡◌, ◌⊎◌, inl, inr, refl, sym, ap, ◌∙◌, subst, true, Option, none,
  some, List, [], ◌∷◌, ◌++◌, arith, Bool-cases, Option-cases, map, take, drop, take-append-drop,
  length, length-drop,
}
use rdstail.Prelude.Int.{pos, negsuc, ℤ}
use rdstail.Failure.{Failure, ok}
use rdstail.State.{Entries}
use rdstail.State.Dlq.{DlqRow, DlqItem, item_of, dlq_list, limit_or_100}
use rdstail.State.Dlq.Order.{IsNumbered}
use rdstail.State.Dlq.Paging.{asked, dlq_list-page}
use rdstail.Replay.{
  SinkConfig, Options, Outside, Replay, Step, going, stopped, replay_item, replay_items, next_page,
  read_page, replay_pages, is_enough,
}
use rdstail.Replay.Items.{Handled, replay_item-Handled}

-- What is left for the replay.
abbrev pub IsAt : Options → List DlqRow → Replay → Type 0
IsAt opts rest r = (asked opts.sink_filter r.after_id r.dlq.rows ≡ rest) × IsNumbered r.dlq

-- The replay when it turns to an item.
abbrev pub turn_to : Replay → ℕ → Replay
turn_to r id = record r { after_id = id; processed = r.processed + 1 }

limit_or_100-positive : (n : ℤ) → (m : ℕ) × (limit_or_100 (pos (limit_or_100 n)) ≡ suc m)
limit_or_100-positive (pos zero) = (99, refl)
limit_or_100-positive (pos (suc n)) = (n, refl)
limit_or_100-positive (negsuc n) = (99, refl)

module _ (x : Outside) (cfg : Entries SinkConfig) (opts : Options)
    (Inv : List DlqRow → Replay → Type 0) (End : Replay → Option Failure → Type 0)
    (inv-IsAt : (rest : List DlqRow) (r : Replay) → Inv rest r → IsAt opts rest r)
    (done : (r : Replay) → Inv [] r → End r none)
    (interrupted : (rest : List DlqRow) (r : Replay) (e : Failure)
      → Inv rest r
      → (x.ended r.trace r.after_id ≡ some e) ⊎ (x.list_refused r.trace r.after_id ≡ some e)
      → End r (some e))
    (enough : (row : DlqRow) (rest : List DlqRow) (r : Replay)
      → Inv (row ∷ rest) r
      → is_enough opts.limit r.processed ≡ true
      → End (record r { after_id = row.id }) none)
    (continues : (row : DlqRow) (rest : List DlqRow) (r r' : Replay)
      → Inv (row ∷ rest) r
      → Handled x cfg opts (turn_to r row.id) (item_of row) (going r')
      → Inv rest r')
    (stops : (row : DlqRow) (rest : List DlqRow) (r r' : Replay) (e : Option Failure)
      → Inv (row ∷ rest) r
      → Handled x cfg opts (turn_to r row.id) (item_of row) (stopped r' e)
      → End r' e) where
  abbrev Kept : List DlqRow → Step → Type 0
  Kept rest (going r) = Inv rest r
  Kept rest (stopped r e) = End r e

  -- Going on after an item, where what follows keeps the invariant.
  item-Kept :
      (row : DlqRow) (more rest : List DlqRow) (r : Replay) (items : Replay → Step)
      → Inv (row ∷ more) r
      → ((r' : Replay) → Inv more r' → Kept rest (items r'))
      → (step : Step) → Handled x cfg opts (turn_to r row.id) (item_of row) step
      → Kept rest (elim step [ going r' ↦ items r' | stopped r' e ↦ stopped r' e ])
  item-Kept row more rest r items inv next (going r') h = next r' (continues row more r r' inv h)
  item-Kept row more rest r items inv next (stopped r' e) h = stops row more r r' e inv h

  replay_items-Kept :
      (page rest : List DlqRow) (r : Replay)
      → Inv (page ++ rest) r
      → Kept rest (replay_items x cfg opts (map item_of page) r)
  unfolding replay_items item_of
  replay_items-Kept [] rest r inv = inv
  replay_items-Kept (row ∷ page) rest r inv = elim (Bool-cases (is_enough opts.limit r.processed)) [
    | inl full ↦ rw (full, replay_items) (enough row (page ++ rest) r inv full)
    | inr more ↦
        rw (more, replay_items)
          (item-Kept row (page ++ rest) rest r (replay_items x cfg opts (map item_of page)) inv
            (replay_items-Kept page rest) (replay_item x cfg opts (turn_to r row.id) (item_of row))
            (replay_item-Handled x cfg opts (turn_to r row.id) (item_of row)))
  ]

  abbrev IsEnding : ℕ → Replay → Type 0
  IsEnding n r =
      (r' : Replay) × (e : Option Failure) × (replay_pages x cfg opts n r ≡ some (r', e)) × End r' e

  -- The page that is read, and the rest.
  page_of :
      (r : Replay) (row : DlqRow) (rest : List DlqRow)
      → IsAt opts (row ∷ rest) r
      → (page more : List DlqRow) × (dlq_list none r.dlq (next_page x cfg opts r)
          ≡ ok (map item_of (row ∷ page)))
        × (page ++ more ≡ rest)
        × (length more ≤ length rest)
  page_of r row rest (at, numbered) =
      let (m, e) = limit_or_100-positive opts.page_size in
      let q = next_page x cfg opts r in
      let left = asked opts.sink_filter r.after_id r.dlq.rows in
      (
        take m rest,
        drop m rest,
        dlq_list-page r.dlq q numbered
            ∙ ap (λ k. ok (map item_of (take k left))) e
            ∙ ap (λ rows. ok (map item_of (take (suc m) rows))) at,
        take-append-drop m rest,
        omega (arith, length-drop m rest),
      )

  no_page : (r : Replay) → IsAt opts [] r → dlq_list none r.dlq (next_page x cfg opts r) ≡ ok []
  no_page r (at, numbered) =
      let (m, e) = limit_or_100-positive opts.page_size in
      let q = next_page x cfg opts r in
      let left = asked opts.sink_filter r.after_id r.dlq.rows in
      dlq_list-page r.dlq q numbered
      ∙ ap (λ k. ok (map item_of (take k left))) e
      ∙ ap (λ rows. ok (map item_of (take (suc m) rows))) at

  abbrev then_pages : ℕ → Step → Option (Replay × Option Failure)
  then_pages n (stopped r' e) = some (r', e)
  then_pages n (going r') = replay_pages x cfg opts n r'

  after_page :
      (n : ℕ) (rest : List DlqRow) (step : Step)
      → Kept rest step
      → ((r' : Replay) → Inv rest r' → IsEnding n r')
      → (r' : Replay) × (e : Option Failure) × (then_pages n step ≡ some (r', e)) × End r' e
  after_page n rest (going r') inv next = next r' inv
  after_page n rest (stopped r' e) h next = (r', e, refl, h)

  module _ (n : ℕ) (r : Replay) (live : x.ended r.trace r.after_id ≡ none) where
    no_items : read_page x cfg opts r ≡ ok [] → replay_pages x cfg opts (suc n) r ≡ some (r, none)
    unfolding replay_pages
    no_items listed = rw (live, listed, replay_pages) refl

    some_items :
        (it : DlqItem) (its : List DlqItem)
        → read_page x cfg opts r ≡ ok (it ∷ its)
        → replay_pages x cfg opts (suc n) r ≡ then_pages n (replay_items x cfg opts (it ∷ its) r)
    unfolding replay_pages
    some_items it its listed = rw (live, listed, replay_pages) refl

    page_read :
        x.list_refused r.trace r.after_id ≡ none
        → read_page x cfg opts r ≡ dlq_list none r.dlq (next_page x cfg opts r)
    unfolding read_page
    page_read free = rw free refl

    page-IsEnding :
        x.list_refused r.trace r.after_id ≡ none
        → (rest : List DlqRow) → Inv rest r
        → ((more : List DlqRow) (r' : Replay)
            → length more < length rest
            → Inv more r'
            → IsEnding n r')
        → IsEnding (suc n) r
    page-IsEnding free [] inv next =
        (r, none, no_items (page_read free ∙ no_page r (inv-IsAt [] r inv)), done r inv)
    page-IsEnding free (row ∷ rest) inv next =
        let (page, more, listed, split, shorter) = page_of r row rest (inv-IsAt _ r inv) in
        let inv' = subst (λ rows. Inv (row ∷ rows) r) (sym split) inv in
        let kept = replay_items-Kept (row ∷ page) more r inv' in
        let (r', e, returned, end) =
          after_page n more _ kept (λ r'. next more r' (omega (arith, shorter))) in
        (
          r',
          e,
          some_items (item_of row) (map item_of page) (page_read free ∙ listed) ∙ returned,
          end,
        )

  -- With one round for each row that is left and one more, Run returns, and what is kept by each item
  -- holds where it returns.
  pub replay_pages-IsEnding :
      (n : ℕ) (rest : List DlqRow) (r : Replay) → length rest < n → Inv rest r → IsEnding n r
  unfolding replay_pages dlq_list
  replay_pages-IsEnding zero rest r h inv = absurd (omega (arith, h))
  replay_pages-IsEnding (suc n) rest r h inv = elim (Option-cases (x.ended r.trace r.after_id)) [
    | inr (e, over) ↦ (r, some e, rw (over, replay_pages) refl, interrupted rest r e inv (inl over))
    | inl live ↦ elim (Option-cases (x.list_refused r.trace r.after_id)) [
      | inr (e, locked) ↦ (
        r,
        some e,
        rw (live, locked, read_page, replay_pages, dlq_list) refl,
        interrupted rest r e inv (inr locked),
      )
      | inl free ↦
          page-IsEnding n r live free rest inv
            (λ more r' shorter. replay_pages-IsEnding n more r' (omega (arith, h, shorter)))
    ]
  ]

  abbrev EndOf : Option (Replay × Option Failure) → Type 0
  EndOf none = Unit
  EndOf (some (r, e)) = End r e

  -- The same of what Run is known to return.
  pub replay_pages-end :
      (n : ℕ) (rest : List DlqRow) (r r' : Replay) (e : Option Failure)
      → length rest < n
      → Inv rest r
      → replay_pages x cfg opts n r ≡ some (r', e)
      → End r' e
  replay_pages-end n rest r r' e h inv returned =
      let (u, f, returns, end) = replay_pages-IsEnding n rest r h inv in
      subst EndOf (sym returns ∙ returned) end
