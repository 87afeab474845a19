-- ===== src/Invoices/Totals.antt =====
-- src/models.rs and src/main.rs: the amounts on the page of an invoice.
use invoices_contracts.Base.{
  ◌≡◌, refl, ap, ◌∙◌, List, [], ◌∷◌, Option, none, some, Option-cases, inl, inr, arith, Text,
}
use invoices_contracts.Models.{User, Customer, Invoice}
use invoices_contracts.Invoices.{
  Amounts, filter_map, map_list, and_then, sum, sum_from, compute_subtotal, compute_total,
}
use invoices_contracts.Invoices.Page.{
  LineItem, AfterLineItemDisplay, line_item, after_item, items_of, line_items_of, after_items_of,
  page_of,
}

module _ {D V F : Type 0} (m : Amounts D V F) where
  amounts-line_items :
      (entries : List (Text × V))
      → map_list (λ item. item.amount) (filter_map (line_item m) entries)
        ≡ map_list
            (λ d. d)
            (filter_map m.try_from (filter_map m.as_f64 (map_list (λ e. e.1) entries)))
  unfolding filter_map
  amounts-line_items [] = refl
  amounts-line_items (e ∷ entries) = elim (Option-cases (m.as_f64 e.1)) [
    | inl no_number ↦ ground (arith, amounts-line_items entries)
    | inr (f, number) ↦ elim (Option-cases (m.try_from f)) [
      | inl out_of_range ↦ ground (arith, amounts-line_items entries)
      | inr (d, fits) ↦ ground (arith, amounts-line_items entries)
    ]
  ]

  amounts-after_items :
      (subtotal : D) (entries : List (Text × V))
      → map_list (λ item. item.calculated_amount) (filter_map (after_item m subtotal) entries)
        ≡ map_list
            (λ p. m.times subtotal p)
            (filter_map m.try_from (filter_map m.as_f64 (map_list (λ e. e.1) entries)))
  unfolding filter_map
  amounts-after_items subtotal [] = refl
  amounts-after_items subtotal (e ∷ entries) = elim (Option-cases (m.as_f64 e.1)) [
    | inl no_number ↦ ground (arith, amounts-after_items subtotal entries)
    | inr (f, number) ↦ elim (Option-cases (m.try_from f)) [
      | inl out_of_range ↦ ground (arith, amounts-after_items subtotal entries)
      | inr (d, fits) ↦ ground (arith, amounts-after_items subtotal entries)
    ]
  ]

  sum-line_items :
      (o : Option (List (Text × V)))
      → sum m (
          map_list
            (λ item. item.amount)
            (elim o as (λ o. List (LineItem D)) [
              | none ↦ []
              | some entries ↦ filter_map (line_item m) entries
            ]))
        ≡ (elim o as (λ o. D) [
          | none ↦ m.zero
          | some entries ↦ sum m (
              map_list
                (λ d. d)
                (filter_map m.try_from (filter_map m.as_f64 (map_list (λ e. e.1) entries))))
        ])
  unfolding sum_from
  sum-line_items none = refl
  sum-line_items (some entries) = ap (sum m) (amounts-line_items entries)

  sum-after_items :
      (subtotal : D) (o : Option (List (Text × V)))
      → sum m (
          map_list
            (λ item. item.calculated_amount)
            (elim o as (λ o. List (AfterLineItemDisplay D)) [
              | none ↦ []
              | some entries ↦ filter_map (after_item m subtotal) entries
            ]))
        ≡ (elim o as (λ o. D) [
          | none ↦ m.zero
          | some entries ↦ sum m (
              map_list
                (λ p. m.times subtotal p)
                (filter_map m.try_from (filter_map m.as_f64 (map_list (λ e. e.1) entries))))
        ])
  unfolding sum_from
  sum-after_items subtotal none = refl
  sum-after_items subtotal (some entries) = ap (sum m) (amounts-after_items subtotal entries)

  pub subtotal_shown :
      (u : User) (i : Invoice) (c : Customer) → (page_of m u i c).subtotal ≡ compute_subtotal m i
  unfolding page_of line_items_of compute_subtotal
  subtotal_shown u i c = sum-line_items (and_then m.parse_map i.line_charges)

  pub total_shown :
      (u : User) (i : Invoice) (c : Customer) → (page_of m u i c).total ≡ compute_total m i
  unfolding page_of line_items_of after_items_of compute_subtotal compute_total
  total_shown u i c =
      ap (λ x. m.add x (after_sum x)) (sum-line_items (and_then m.parse_map i.line_charges))
      ∙ ap (m.add _) (sum-after_items _ (and_then m.parse_map i.after_line_items))
    where
      after_sum : D → D
      after_sum x = sum m (
          map_list (λ item. item.calculated_amount)
            (items_of m (after_item m x) i.after_line_items))
