-- ===== src/Constants/DoubleByte0.antt =====
-- lib/baileys_ex/protocol/constants.ex: double-byte token dictionary 0.
use mathlib.Core.List.{List, [], ◌∷◌, map}
use baileys_ex.Base.Text.{Text, codes}

unfoldable pub double_byte_tokens_0 : List Text
double_byte_tokens_0 = map codes (
    "read-self" ∷ "active" ∷ "fbns" ∷ "protocol" ∷ "reaction" ∷ "screen_width" ∷ "heartbeat"
    ∷ "deviceid" ∷ "2:47DEQpj8" ∷ "uploadfieldstat" ∷ "voip_settings" ∷ "retry" ∷ "priority"
    ∷ "longitude" ∷ "conflict" ∷ "false" ∷ "ig_professional" ∷ "replaced" ∷ "preaccept"
    ∷ "cover_photo" ∷ "uncompressed" ∷ "encopt" ∷ "ppic" ∷ "04" ∷ "passive" ∷ "status-revoke-drop"
    ∷ "keygen" ∷ "540" ∷ "offer" ∷ "rate" ∷ "opus" ∷ "latitude" ∷ "w:gp2" ∷ "ver" ∷ "4"
    ∷ "business_profile" ∷ "medium" ∷ "sender" ∷ "prev_v_id" ∷ "email" ∷ "website" ∷ "invited"
    ∷ "sign_credential" ∷ "05" ∷ "transport" ∷ "skey" ∷ "reason" ∷ "peer_abtest_bucket"
    ∷ "America/Sao_Paulo" ∷ "appid" ∷ "refresh" ∷ "100" ∷ "06" ∷ "404" ∷ "101" ∷ "104" ∷ "107"
    ∷ "102" ∷ "109" ∷ "103" ∷ "member_add_mode" ∷ "105" ∷ "transaction-id" ∷ "110" ∷ "106"
    ∷ "outgoing" ∷ "108" ∷ "111" ∷ "tokens" ∷ "followers" ∷ "ig_handle" ∷ "self_pid" ∷ "tue" ∷ "dec"
    ∷ "thu" ∷ "joinable" ∷ "peer_pid" ∷ "mon" ∷ "features" ∷ "wed" ∷ "peer_device_presence" ∷ "pn"
    ∷ "delete" ∷ "07" ∷ "fri" ∷ "audio_duration" ∷ "admin" ∷ "connected" ∷ "delta" ∷ "rcat"
    ∷ "disable" ∷ "collection" ∷ "08" ∷ "480" ∷ "sat" ∷ "phash" ∷ "all" ∷ "invite" ∷ "accept"
    ∷ "critical_unblock_low" ∷ "group_update" ∷ "signed_credential" ∷ "blinded_credential"
    ∷ "eph_setting" ∷ "net" ∷ "09" ∷ "background_location" ∷ "refresh_id" ∷ "Asia/Kolkata"
    ∷ "privacy_mode_ts" ∷ "account_sync" ∷ "voip_payload_type" ∷ "service_areas" ∷ "acs_public_key"
    ∷ "v_id" ∷ "0a" ∷ "fallback_class" ∷ "relay" ∷ "actual_actors" ∷ "metadata" ∷ "w:biz" ∷ "5"
    ∷ "connected-limit" ∷ "notice" ∷ "0b" ∷ "host_storage" ∷ "fb_page" ∷ "subject" ∷ "privatestats"
    ∷ "invis" ∷ "groupadd" ∷ "010" ∷ "note.m4r" ∷ "uuid" ∷ "0c" ∷ "8000" ∷ "sun" ∷ "372" ∷ "1020"
    ∷ "stage" ∷ "1200" ∷ "720" ∷ "canonical" ∷ "fb" ∷ "011" ∷ "video_duration" ∷ "0d" ∷ "1140"
    ∷ "superadmin" ∷ "012" ∷ "Opening.m4r" ∷ "keystore_attestation" ∷ "dleq_proof" ∷ "013"
    ∷ "timestamp" ∷ "ab_key" ∷ "w:sync:app:state" ∷ "0e" ∷ "vertical" ∷ "600" ∷ "p_v_id" ∷ "6"
    ∷ "likes" ∷ "014" ∷ "500" ∷ "1260" ∷ "creator" ∷ "0f" ∷ "rte" ∷ "destination" ∷ "group"
    ∷ "group_info" ∷ "syncd_anti_tampering_fatal_exception_enabled" ∷ "015" ∷ "dl_bw"
    ∷ "Asia/Jakarta" ∷ "vp8/h.264" ∷ "online" ∷ "1320" ∷ "fb:multiway" ∷ "10" ∷ "timeout" ∷ "016"
    ∷ "nse_retry" ∷ "urn:xmpp:whatsapp:dirty" ∷ "017" ∷ "a_v_id"
    ∷ "web_shops_chat_header_button_enabled" ∷ "nse_call" ∷ "inactive-upgrade" ∷ "none" ∷ "web"
    ∷ "groups" ∷ "2250" ∷ "mms_hot_content_timespan_in_seconds" ∷ "contact_blacklist" ∷ "nse_read"
    ∷ "suspended_group_deletion_notification" ∷ "binary_version" ∷ "018"
    ∷ "https://www.whatsapp.com/otp/copy/" ∷ "reg_push" ∷ "shops_hide_catalog_attachment_entrypoint"
    ∷ "server_sync" ∷ "." ∷ "ephemeral_messages_allowed_values" ∷ "019"
    ∷ "mms_vcache_aggregation_enabled" ∷ "iphone" ∷ "America/Argentina/Buenos_Aires" ∷ "01a"
    ∷ "mms_vcard_autodownload_size_kb" ∷ "nse_ver" ∷ "shops_header_dropdown_menu_item" ∷ "dhash"
    ∷ "catalog_status" ∷ "communities_mvp_new_iqs_serverprop" ∷ "blocklist" ∷ "default" ∷ "11"
    ∷ "ephemeral_messages_enabled" ∷ "01b" ∷ "original_dimensions" ∷ "8"
    ∷ "mms4_media_retry_notification_encryption_enabled"
    ∷ "mms4_server_error_receipt_encryption_enabled" ∷ "original_image_url" ∷ "sync" ∷ "multiway"
    ∷ "420" ∷ "companion_enc_static" ∷ "shops_profile_drawer_entrypoint" ∷ "01c"
    ∷ "vcard_as_document_size_kb" ∷ "status_video_max_duration" ∷ "request_image_url" ∷ "01d"
    ∷ "regular_high" ∷ "s_t" ∷ "abt" ∷ "share_ext_min_preliminary_image_quality" ∷ "01e" ∷ "32"
    ∷ "syncd_key_rotation_enabled" ∷ "data_namespace" ∷ "md_downgrade_read_receipts2" ∷ "patch"
    ∷ "polltype" ∷ "ephemeral_messages_setting" ∷ "userrate" ∷ "15" ∷ "partial_pjpeg_bw_threshold"
    ∷ "played-self" ∷ "catalog_exists" ∷ "01f" ∷ "mute_v2" ∷ [])
