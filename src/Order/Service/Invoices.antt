-- ===== src/Order/Service/Invoices.antt =====
-- One invoice for each order.
use uniedit_server.Common.{◌≡◌, refl, ℕ, String, true, none, some, ok, returns, arith}
use uniedit_server.Order.Model.{Order, Invoice, is_paid}
use uniedit_server.Order.Status.{OrderStatus_Eq}
use uniedit_server.Order.Ports.{Ports}
use uniedit_server.Order.Service.Transitions.{generate_invoice, invoice_of}

-- A database of invoices beside that of orders: an invoice that was created is found under its
-- order, and looking up and creating invoices leave the orders as they are.
pub record StoresInvoices {W : Type 0} (d : Ports W) : Type 0 where
  pub create_found :
      (i : Invoice) (w w' : W)
      → d.create_invoice i w ≡ (ok tt, w')
      → d.get_invoice_by_order_id i.order_id w' ≡ (ok (some i), w')
  pub create_keeps :
      (i : Invoice) (order_id : ℕ) (w w' : W)
      → d.create_invoice i w ≡ (ok tt, w')
      → (d.get_by_id order_id w').0 ≡ (d.get_by_id order_id w).0
  pub reads_keep : (order_id : ℕ) (w : W) → (d.get_by_id order_id w).1 ≡ w

module _ {W : Type 0} (d : Ports W) (s : StoresInvoices d) where
  -- For a paid order without an invoice, whose invoice can be stored, `GenerateInvoice` makes one
  -- for the order's user, total, currency and time of payment; every later call returns
  -- that same invoice and changes nothing.
  pub generate_invoice_again :
      (id id' : ℕ) (number number' : String) (now later order_id : ℕ) (o : Order) (w w' : W)
      → d.get_by_id order_id w ≡ (ok (some o), w)
      → is_paid o ≡ true
      → d.get_invoice_by_order_id order_id w ≡ (ok none, w)
      → d.create_invoice (invoice_of id number now order_id o) w ≡ (ok tt, w')
      → (generate_invoice d id number now order_id w
          ≡ (returns (invoice_of id number now order_id o), w'))
        × (generate_invoice d id' number' later order_id w'
            ≡ (returns (invoice_of id number now order_id o), w'))
  unfolding generate_invoice
  generate_invoice_again id id' number number' now later order_id o w w' a b c e =
      let kept = s.create_keeps _ order_id w w' e in
      let found = s.create_found _ w w' e in
      let same = s.reads_keep order_id w' in
      (rw (a, b, c, e) refl, ground (arith, kept, found, same))
