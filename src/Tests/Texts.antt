-- ===== src/Tests/Texts.antt =====
-- A number as text (src/session.cpp).
use nghttp2_corosio.Base.{◌≡◌, ◌≢◌, ◌≤◌, ◌↔◌, some, [], codes}
use nghttp2_corosio.Decimal.{size_max, value_from}
use nghttp2_corosio.Decimal.Digits.{AreDigits}
use nghttp2_corosio.Session.Callbacks.{content_length_of}
use nghttp2_corosio.Session.ContentLength.{content_length_of_iff}

content_length_of_iff_example : (content_length_of (codes "42") ≡ some 42) ↔ (
    AreDigits (codes "42") × (codes "42" ≢ []) × (value_from 0 (codes "42") ≡ 42) × (42 ≤ size_max))
content_length_of_iff_example = content_length_of_iff 42 (codes "42")
