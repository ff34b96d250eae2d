-- ===== src/Proto.antt =====
-- The messages of proto/trade_market_protocol.proto that the server keeps and exchanges. An int32,
-- an int64 and a double are integers here; a double counts units (Double.antt).
use stock_app.Common.{ℕ, String, List}
use stock_app.Common.Int.{ℤ, pos}
use stock_app.Double.{Double}

pub data TradeType : Type 0 where
  buy sell : TradeType

pub record TradeOrder : Type 0 where
  pub type : TradeType
  pub usd_cost : Double
  pub usd_amount : ℤ
  pub timestamp : ℤ
  pub order_id : ℤ
  pub usd_volume : ℤ
  pub username : String

pub record AccountBalance : Type 0 where
  pub usd_balance : Double
  pub rub_balance : Double

pub record ClientBalance : Type 0 where
  pub username : String
  pub funds : AccountBalance

pub record Quote : Type 0 where
  pub timestamp : ℤ
  pub price : Double

pub record ActiveOrders : Type 0 where
  pub active_buy_orders : List TradeOrder
  pub active_sell_orders : List TradeOrder

pub record CompletedOrders : Type 0 where
  pub completed_buy_orders : List TradeOrder
  pub completed_sell_orders : List TradeOrder

pub record QuoteHistory : Type 0 where
  pub quotes : List Quote

pub data CommandType : Type 0 where
  sign_up sign_in make_order view_balance view_all_active_orders view_completed_trades : CommandType
  view_quote_history cancel_active_order : CommandType
  -- a number that the enumeration does not name
  unknown_command : ℕ → CommandType

-- SignUpRequest and SignInRequest
pub record Credentials : Type 0 where
  pub username : String
  pub password : String

pub record CancelTradeOrder : Type 0 where
  pub type : TradeType
  pub order_id : ℤ

-- `oneof RequestData` of a request.
pub data RequestData : Type 0 where
  no_request_data : RequestData
  sign_up_data sign_in_data : Credentials → RequestData
  order_data : TradeOrder → RequestData
  cancel_data : CancelTradeOrder → RequestData

pub record TradeRequest : Type 0 where
  pub command : CommandType
  pub username : String
  pub jwt : String
  pub data_of : RequestData

pub data Status : Type 0 where
  error sign_up_successful username_already_taken sign_in_successful : Status
  invalid_username_or_password user_already_logged_in order_successfully_created : Status
  success_view_balance success_view_all_active_orders success_view_completed_trades : Status
  success_view_quote_history success_cancel_active_order error_cancel_active_order : Status
  order_matched : Status

-- `oneof RequestData` of a response.
pub data ResponseData : Type 0 where
  no_response_data : ResponseData
  jwt_data : String → ResponseData
  balance_data : AccountBalance → ResponseData
  active_data : ActiveOrders → ResponseData
  completed_data : CompletedOrders → ResponseData
  quotes_data : QuoteHistory → ResponseData
  error_data : String → ResponseData

pub record TradeResponse : Type 0 where
  pub response_msg : Status
  pub data_of : ResponseData

-- A default-constructed order, and what an accessor returns of a `oneof` that holds another member.
abbrev pub default_order : TradeOrder
default_order = record {
  type = buy;
  usd_cost = pos 0;
  usd_amount = pos 0;
  timestamp = pos 0;
  order_id = pos 0;
  usd_volume = pos 0;
  username = "";
}

abbrev pub sign_up_request : RequestData → Credentials
sign_up_request (sign_up_data c) = c
sign_up_request _ = record { username = ""; password = "" }

abbrev pub sign_in_request : RequestData → Credentials
sign_in_request (sign_in_data c) = c
sign_in_request _ = record { username = ""; password = "" }

abbrev pub order_of : RequestData → TradeOrder
order_of (order_data o) = o
order_of _ = default_order

abbrev pub cancel_order : RequestData → CancelTradeOrder
cancel_order (cancel_data c) = c
cancel_order _ = record { type = buy; order_id = pos 0 }
