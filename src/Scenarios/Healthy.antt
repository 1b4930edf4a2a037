-- ===== src/Scenarios/Healthy.antt =====
-- The shop satisfies the invariants.
use baytna.Prelude.{refl, false, some, arith}
use baytna.Prelude.Table.{get}
use baytna.Delivery.Runs.{IsSound}
use baytna.Fulfillment.Shortfall.{AlwaysFails}
use baytna.Inventory.Balance.{held, IsBalanced}
use baytna.Scenarios.{shop, disabled}
use baytna.System.Health.{IsHealthy}
use baytna.System.Money.{IsCovered}

pub shop-IsSound : IsSound shop
unfolding get
shop-IsSound = record {
  coupled = record {
    rows = λ k t h. ground arith;
    unique = λ j k t u hj hk e. ground arith;
    fresh = λ k t h. ground arith;
  };
  exclusive = λ i j t u hi hj at' au e. ground arith;
}

pub shop-IsBalanced : IsBalanced shop
unfolding get held
shop-IsBalanced = record { balance = λ k i h. ground arith }

pub shop-IsCovered : IsCovered shop
shop-IsCovered = record { covered = (ground arith, (ground arith, tt)) }

pub shop-IsHealthy : IsHealthy shop
shop-IsHealthy = record {
  sound = shop-IsSound;
  balanced = shop-IsBalanced;
  covered = shop-IsCovered;
}

pub disabled-AlwaysFails : AlwaysFails disabled
disabled-AlwaysFails = record {
  fails = λ reference amount key. (
    record {
      succeeded = false;
      reference = "";
      provider_status = some "disabled";
      error = some "refunds are disabled";
    },
    refl,
    refl,
  );
}
