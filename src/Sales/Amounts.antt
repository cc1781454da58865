-- ===== src/Sales/Amounts.antt =====
-- What the invoice of a delivery bills of the amounts of the order.
use vyaparaflowai.Prelude.{ℕ, ◌+◌, ◌<◌, ◌≡◌, Option, none, some, List, ◌==◌, find, total}
use vyaparaflowai.Sales.Tables.{SalesOrderItem, DeliveryItem, CustomerInvoiceItem}

-- The item of a line of a delivery.
abbrev pub item_of : List SalesOrderItem → DeliveryItem → Option SalesOrderItem
item_of items row = find (λ (i : SalesOrderItem). i.id == row.sales_order_item_id) items

abbrev pub item_subtotal : List SalesOrderItem → DeliveryItem → ℕ
item_subtotal items row = elim (item_of items row) [ none ↦ 0 | some item ↦ item.line_subtotal ]

abbrev pub item_tax : List SalesOrderItem → DeliveryItem → ℕ
item_tax items row = elim (item_of items row) [ none ↦ 0 | some item ↦ item.line_tax ]

-- A line that delivers the whole of its item.
abbrev pub IsWhole : List SalesOrderItem → DeliveryItem → Type 0
IsWhole items row =
    (item : SalesOrderItem)
    → item_of items row ≡ some item
    → (0 < item.quantity) × (row.quantity ≡ item.quantity)

-- The amounts of the items are those of the bill.
abbrev AddsUp : List SalesOrderItem → List DeliveryItem → List CustomerInvoiceItem → Type 0
AddsUp items rows bill =
    (total (λ (i : CustomerInvoiceItem). i.line_subtotal) bill ≡ total (item_subtotal items) rows)
    × (total (λ (i : CustomerInvoiceItem). i.line_tax) bill ≡ total (item_tax items) rows)
    × (total (λ (i : CustomerInvoiceItem). i.line_total) bill
        ≡ total (item_subtotal items) rows + total (item_tax items) rows)
