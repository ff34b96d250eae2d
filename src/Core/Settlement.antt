-- ===== src/Core/Settlement.antt =====
-- A match between active orders of known clients goes through.
use stock_app.Common.Equality.{id_key, username_key}
use stock_app.Platform.{Platform}
use stock_app.ClientDataManager.State.{ClientDataManager}
