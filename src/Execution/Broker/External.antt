-- ===== src/Execution/Broker/External.antt =====
-- Fills that a real venue reports: `ingest_external_fill` of src/execution/broker.cpp.
use predictive_trading_lab.Prelude.{
  ◌≡◌, refl, ◌⊎◌, inl, inr, true, false, none, some, ok, err, arith, Option-cases, Bool-cases, List,
  [], ◌∷◌,
}
use predictive_trading_lab.Prelude.Double.{Double, ◌⊕◌, ◌<?◌, d0, is_finite}
use predictive_trading_lab.Core.Time.{validate_chain}
use predictive_trading_lab.Oms.Order.{OrderId}
use predictive_trading_lab.Oms.Fill.{Fill}
use predictive_trading_lab.Execution.Broker.{
  PendingOrder, ExternalFillReport, BrokerError, Broker, find_pending, fill_of, is_bad, dust,
  unknown_order, bad_fill_quantity, bad_fill_price, exceeds_remaining, broken_chain, remaining_of,
  record_external, ingest_external_fill,
}

module _ {D : Type 0} ⦃F : Double D⦄ where
  abbrev pub reported_fill : PendingOrder D → ExternalFillReport D → Fill D
  reported_fill p r =
      fill_of p.order r.price r.quantity r.fill_time r.commission r.exchange_fee r.liquidity

  -- A report that the broker may believe about a pending order.
  pub record IsCredible (p : PendingOrder D) (r : ExternalFillReport D) : Type 0 where
    pub is_for : p.order.id ≡ r.order_id
    pub quantity_positive : (d0 <? r.quantity) ≡ true
    pub quantity_finite : is_finite r.quantity ≡ true
    pub price_positive : (d0 <? r.price) ≡ true
    pub price_finite : is_finite r.price ≡ true
    pub fits : (remaining_of p ⊕ dust <? r.quantity) ≡ false
    pub chained : validate_chain (reported_fill p r).times ≡ none

  find_pending-id :
      (id : OrderId) (pending : List (PendingOrder D)) (p : PendingOrder D)
      → find_pending id pending ≡ some p
      → p.order.id ≡ id
  unfolding find_pending
  find_pending-id id [] p h = cc
  find_pending-id id (q ∷ pending) p h = ground (arith, find_pending-id id pending p)

  pub ingest_external_fill_lem :
      {R : Type 0}
      → (b : Broker D R) (r : ExternalFillReport D)
      → ((e : BrokerError) × (ingest_external_fill b r ≡ (b, err e)))
        ⊎ ((p : PendingOrder D) × (find_pending r.order_id b.pending ≡ some p)
            × IsCredible p r
            × (ingest_external_fill b r ≡ (record_external b p r, ok (reported_fill p r))))
  unfolding ingest_external_fill is_bad
  ingest_external_fill_lem b r = elim (Option-cases (find_pending r.order_id b.pending)) [
    | inl e ↦ inl (unknown_order, rw (e, ingest_external_fill) refl)
    | inr (p, e) ↦
        let same = find_pending-id r.order_id b.pending p e in
        elim (Bool-cases (is_bad r.quantity)) [
          | inl bad ↦ inl (bad_fill_quantity, ground arith)
          | inr ok_quantity ↦ elim (Bool-cases (is_bad r.price)) [
            | inl bad ↦ inl (bad_fill_price, ground arith)
            | inr ok_price ↦ elim (Bool-cases (remaining_of p ⊕ dust <? r.quantity)) [
              | inl bad ↦ inl (exceeds_remaining, ground arith)
              | inr fits ↦ elim (Option-cases (validate_chain (reported_fill p r).times)) [
                | inr (v, bad) ↦ inl (broken_chain, ground arith)
                | inl chained ↦ inr (
                  p,
                  e,
                  record {
                    is_for = same;
                    quantity_positive = ground arith;
                    quantity_finite = ground arith;
                    price_positive = ground arith;
                    price_finite = ground arith;
                    fits = fits;
                    chained = chained;
                  },
                  ground arith,
                )
              ]
            ]
          ]
        ]
  ]
