-- ===== src/Core/Consts.antt =====
-- pinpam-core/src/pinconstants.rs, and the default TCTI of tcti.rs.
use pinpam.Base.{ℕ}
use pinpam.Base.Text.{Text, codes}

abbrev pub pin_nv_index_base : ℕ
pin_nv_index_base = 0x0100_0000

abbrev pub pin_version_uid_max : ℕ
pin_version_uid_max = 0x007f_ffff

abbrev pub pin_version_nv_index_offset : ℕ
pin_version_nv_index_offset = 0x0080_0000

abbrev pub pin_version_current : ℕ
pin_version_current = 2

abbrev pub pin_version_tag_size : ℕ
pin_version_tag_size = 1

abbrev pub default_pinutil_path : Text
default_pinutil_path = codes "/usr/bin/pinutil"

abbrev pub default_tcti_spec : Text
default_tcti_spec = codes "device:/dev/tpmrm0"

abbrev pub master_key_rsa_parent_handle : ℕ
master_key_rsa_parent_handle = 0x8100_0080

abbrev pub master_key_hmac_handle : ℕ
master_key_hmac_handle = 0x8100_0081

abbrev pub master_key_sealed_file : Text
master_key_sealed_file = codes "/var/pinpam/sealed_master_key"
