-- ===== src/Examples/Policies.antt =====
-- The gates, on one price change.
use restaurant_ops_copilot.Prelude.{◌≡◌, ◌↔◌, false}
use restaurant_ops_copilot.Values.{num, price_change}
use restaurant_ops_copilot.Policy.Critic.Bounds.{Approves, Permits, critique_iff}
use restaurant_ops_copilot.Policy.Risk.{classify_risk}
use restaurant_ops_copilot.Policy.Risk.Autonomy.{Confident, SmallChange, autonomous_iff}
use restaurant_ops_copilot.Examples.Data.{fixed, plus, raise_price}

critique_iff_example :
    Approves fixed price_change raise_price (num (plus 100000))
    ↔ Permits fixed price_change raise_price (num (plus 100000))
critique_iff_example = critique_iff fixed price_change raise_price (num (plus 100000))

autonomous_iff_example :
    ((classify_risk fixed price_change raise_price
        (num (plus 9000))
        (num (plus 100000))).requires_approval
      ≡ false)
    ↔ ((price_change ≡ price_change)
        × Confident fixed (num (plus 9000))
        × SmallChange fixed raise_price (num (plus 100000)))
autonomous_iff_example =
    autonomous_iff fixed price_change raise_price (num (plus 9000)) (num (plus 100000))
