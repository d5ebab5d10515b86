-- ===== src/Http/Errors.antt =====
-- `wasi:http/types.error-code`, as the bindings generate it for crates/wasmlet/src/engine/wasi/http.
use Prim.Native.String.{String}
use wasmx.Base.{ℕ, Option}

pub record DnsErrorPayload : Type 0 where
  pub rcode : Option String
  pub info_code : Option ℕ

pub record TlsAlertReceivedPayload : Type 0 where
  pub alert_id : Option ℕ
  pub alert_message : Option String

pub record FieldSizePayload : Type 0 where
  pub field_name : Option String
  pub field_size : Option ℕ

pub data ErrorCode : Type 0 where
  dns_timeout : ErrorCode
  dns_error : DnsErrorPayload → ErrorCode
  destination_not_found destination_unavailable destination_ip_prohibited : ErrorCode
  destination_ip_unroutable connection_refused connection_terminated : ErrorCode
  connection_timeout connection_read_timeout connection_write_timeout : ErrorCode
  connection_limit_reached tls_protocol_error tls_certificate_error : ErrorCode
  tls_alert_received : TlsAlertReceivedPayload → ErrorCode
  http_request_denied http_request_length_required : ErrorCode
  http_request_body_size : Option ℕ → ErrorCode
  http_request_method_invalid http_request_uri_invalid http_request_uri_too_long : ErrorCode
  http_request_header_section_size : Option ℕ → ErrorCode
  http_request_header_size : Option FieldSizePayload → ErrorCode
  http_request_trailer_section_size : Option ℕ → ErrorCode
  http_request_trailer_size : FieldSizePayload → ErrorCode
  http_response_incomplete : ErrorCode
  http_response_header_section_size : Option ℕ → ErrorCode
  http_response_header_size : FieldSizePayload → ErrorCode
  http_response_body_size : Option ℕ → ErrorCode
  http_response_trailer_section_size : Option ℕ → ErrorCode
  http_response_trailer_size : FieldSizePayload → ErrorCode
  http_response_transfer_coding http_response_content_coding : Option String → ErrorCode
  http_response_timeout http_upgrade_failed http_protocol_error loop_detected : ErrorCode
  configuration_error : ErrorCode
  internal_error : Option String → ErrorCode
