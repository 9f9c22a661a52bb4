-- ===== src/Live/Connection/Delivery.antt =====
-- At most one delivery of a sequenced message (src/live/connection.cpp).
use predictive_trading_lab.Prelude.Double.{Double}
