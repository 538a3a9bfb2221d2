-- ===== src/Brain/MarketData.antt =====
-- brain/market_data/types.py: a tick and a bar. The fields that no modelled code reads (the broker's
-- symbol, the source, the sequence number, the time of receipt) are left out.
use aurexis.Base.{ℕ, String, Bool, Option}
use aurexis.Decimal
use aurexis.Decimal.{Decimal, dec, Checked}

-- Microseconds since the epoch.
abbrev pub Timestamp : Type 0
Timestamp = ℕ

pub record Tick : Type 0 where
  pub symbol : String
  pub bid : Decimal
  pub ask : Decimal
  pub tick_time : Timestamp
  pub volume : Option Decimal

-- `(bid + ask) / 2`
abbrev pub mid : Tick → Checked Decimal
mid tick = Decimal.div (Decimal.add tick.bid tick.ask) (dec 2 0)

pub record Bar : Type 0 where
  pub symbol : String
  pub timeframe : String
  pub open_time : Timestamp
  pub close_time : Timestamp
  pub open_price : Decimal
  pub high_price : Decimal
  pub low_price : Decimal
  pub close_price : Decimal
  pub volume : Decimal
  pub is_closed : Bool
