-- ===== src/Packet/Format.antt =====
-- packet.go: the flags and the header fields of a packet.
use irtt.Prelude.{ℕ, ◌+◌, ◌-◌, List, [], ◌∷◌, bit_or, bit_and}
use irtt.Fbuf.{Field}

-- `flags`
abbrev pub fl_open : ℕ
fl_open = 1

abbrev pub fl_reply : ℕ
fl_reply = 2

abbrev pub fl_close : ℕ
fl_close = 4

abbrev pub fl_hmac : ℕ
fl_hmac = 8

abbrev pub fl_all : ℕ
fl_all = 15

abbrev pub set_bits : ℕ → ℕ → ℕ
set_bits f fset = bit_or f fset

-- `f &^ fcl` on a byte
abbrev pub clear_bits : ℕ → ℕ → ℕ
clear_bits f fcl = bit_and f (255 - fcl)

-- Field indexes.
abbrev pub f_magic : ℕ
f_magic = 0

abbrev pub f_flags : ℕ
f_flags = 1

abbrev pub f_hmac : ℕ
f_hmac = 2

abbrev pub f_conn_token : ℕ
f_conn_token = 3

abbrev pub f_seqno : ℕ
f_seqno = 4

abbrev pub f_rcount : ℕ
f_rcount = 5

abbrev pub f_rwindow : ℕ
f_rwindow = 6

abbrev pub f_rwall : ℕ
f_rwall = 7

abbrev pub f_rmono : ℕ
f_rmono = 8

abbrev pub f_mwall : ℕ
f_mwall = 9

abbrev pub f_mmono : ℕ
f_mmono = 10

abbrev pub f_swall : ℕ
f_swall = 11

abbrev pub f_smono : ℕ
f_smono = 12

-- `fcaps`
abbrev pub fcaps : List ℕ
fcaps = 3 ∷ 1 ∷ 16 ∷ 8 ∷ 4 ∷ 4 ∷ 8 ∷ 8 ∷ 8 ∷ 8 ∷ 8 ∷ 8 ∷ 8 ∷ []

-- Field index definitions.
abbrev pub finit : List ℕ
finit = f_magic ∷ f_flags ∷ []

abbrev pub finit_hmac : List ℕ
finit_hmac = f_magic ∷ f_flags ∷ f_hmac ∷ []

abbrev pub fopen_reply : List ℕ
fopen_reply = f_magic ∷ f_flags ∷ f_conn_token ∷ []

abbrev pub frequest : List ℕ
frequest = f_magic ∷ f_flags ∷ f_conn_token ∷ []

abbrev pub fclose_request : List ℕ
fclose_request = f_magic ∷ f_flags ∷ f_conn_token ∷ []

abbrev pub fecho_request : List ℕ
fecho_request = f_magic ∷ f_flags ∷ f_conn_token ∷ f_seqno ∷ []

abbrev pub fecho_reply : List ℕ
fecho_reply = f_magic ∷ f_flags ∷ f_conn_token ∷ f_seqno ∷ []

abbrev pub magic : List ℕ
magic = 0x14 ∷ 0xa7 ∷ 0x5b ∷ []

abbrev total : List ℕ → ℕ
total [] = 0
total (c ∷ cs) = c + total cs

-- `maxHeaderLen`, as `init` computes it
abbrev pub max_header_len : ℕ
max_header_len = total fcaps

-- `newFields`
abbrev pub empty_fields : List ℕ → List Field
empty_fields [] = []
empty_fields (c ∷ cs) = record { pos = 0; len = 0; cap = c } ∷ empty_fields cs

abbrev pub new_fields : List Field
new_fields = empty_fields fcaps
