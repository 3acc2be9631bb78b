-- ===== src/Provider.antt =====
-- app/services/payments/base.py: the interface of a payment gateway, as the payout and the wallet
-- use it. A call returns or raises; what the gateway answers is up to it.
use autopay.Base.{String}
use autopay.Session.{Result, Transfer}

pub record ResolvedAccount : Type 0 where
  pub account_number : String
  pub account_name : String
  pub bank_code : String

pub record TransferResult : Type 0 where
  pub provider_reference : String
  pub provider_transfer_id : String
  pub status : String

pub record VirtualAccountData : Type 0 where
  pub account_number : String
  pub account_name : String
  pub bank_name : String
  pub bank_code : String
  pub provider_reference : String
  pub provider : String

pub record PaymentProvider : Type 0 where
  pub name : String
  pub create_customer : String → String → String → String → Result String
  pub create_virtual_account : String → String → Result VirtualAccountData
  pub resolve_account : String → String → Result ResolvedAccount
  pub create_transfer_recipient : String → String → String → Result String
  pub initiate_transfer : Transfer → Result TransferResult
