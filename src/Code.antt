-- ===== src/Code.antt =====
-- event.go and error.go: the codes that tell events and errors apart. The texts that go with them are
-- not modelled.

pub data Code : Type 0 where
  -- server events
  multiple_addresses server_start server_stop listener_start listener_stop : Code
  listener_error drop new_conn open_close close_conn no_dscp_support exceeded_duration : Code
  no_receive_dst_addr_support remove_no_conn invalid_server_fill : Code
  -- client events
  connecting multiple_server_addresses connected wait_for_packets server_restriction : Code
  no_test connected_closed : Code
  -- common errors
  short_write invalid_df_string fields_length_too_large fields_capacity_too_large : Code
  invalid_stamp_at_string invalid_stamp_at_int invalid_allow_stamp_string : Code
  invalid_clock_string invalid_clock_int bad_magic no_hmac bad_hmac unexpected_hmac : Code
  nonexclusive_midpoint_t_stamp inconsistent_clocks df_not_supported : Code
  invalid_flag_bits_set short_param_buffer param_overflow invalid_param_value : Code
  protocol_version_mismatch : Code
  -- server errors
  no_matching_interfaces no_matching_interfaces_up unspecified_with_specified_addresses : Code
  unexpected_reply_flag no_suitable_address_found invalid_conn_token short_interval : Code
  large_request address_mismatch syslog_not_supported invalid_syslog_uri : Code
  -- client errors
  invalid_win_avg_window invalid_exp_avg_alpha allocate_results_panic : Code
  unexpected_open_flag df_error ttl_error expected_reply_flag short_reply : Code
  stamp_at_mismatch clock_mismatch unexpected_sequence_number invalid_sleep_factor : Code
  invalid_wait_string invalid_wait_factor invalid_wait_duration no_such_averager : Code
  no_such_filler no_such_timer no_such_time_source no_such_waiter interval_non_positive : Code
  duration_non_positive conn_token_zero server_closed open_timeout : Code
  invalid_server_restriction invalid_received_stats_int invalid_received_stats_string : Code
  open_timeout_too_short server_fill_too_long unexpected_init_channel_close : Code
