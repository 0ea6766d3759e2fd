-- ===== src/Error.antt =====
-- src/error.rs: the conversions of ESP-IDF errors to `rs-matter` error codes.
use Prim.Native.Nat.{ℕ}

-- An `esp_err_t`, as its bit pattern.
abbrev pub EspError : Type 0
EspError = ℕ

-- The codes of `rs-matter` that this crate raises by name; `other` stands for those it passes on.
pub data ErrorCode : Type 0 where
  no_network_interface std_io_error constraint_error invalid_data no_space btp_error : ErrorCode
  failure : ErrorCode
  other : ℕ → ErrorCode

unfoldable pub to_net_error : EspError → ErrorCode
to_net_error err = ErrorCode.no_network_interface

unfoldable pub to_persist_error : EspError → ErrorCode
to_persist_error err = ErrorCode.std_io_error

-- `NetCtlError` of `rs-matter`.
pub data NetCtlError : Type 0 where
  auth_failure ip_bind_failed other_connection_failure : NetCtlError
  other : ErrorCode → NetCtlError

-- `to_net_constr_error`, and what `?` makes of an `Error`.
unfoldable pub to_net_constr_error : EspError → NetCtlError
to_net_constr_error err = NetCtlError.other ErrorCode.constraint_error

abbrev pub to_net_ctl_error : EspError → NetCtlError
to_net_ctl_error e = NetCtlError.other (to_net_error e)
