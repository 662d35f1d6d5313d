-- ===== src/Net/Tests.antt =====
-- Ports.
use cloud_sys.Base.{◌≡◌, refl}
use cloud_sys.Base.Int.{pos, negsuc}
use cloud_sys.CString.{text, atoi, skip_space}
use cloud_sys.Net.{port_of, low_half}

port_12345 : port_of (text "12345") ≡ 12345
unfolding port_of low_half text atoi skip_space
port_12345 = refl

too_large : low_half (pos 65537) ≡ 1
unfolding low_half
too_large = refl

negative : low_half (negsuc 0) ≡ 65535
unfolding low_half
negative = refl
