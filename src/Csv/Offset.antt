-- ===== src/Csv/Offset.antt =====
-- The offsets in `Report` of agents/linux/csv_attestation.c, and those of its `CsvCert`'s public key in
-- the certificate.
use tlslatch.Base.{ℕ}

abbrev pub user_data : ℕ
user_data = 64

abbrev pub measure : ℕ
measure = 144

abbrev pub anonce : ℕ
anonce = 188

abbrev pub sig1_r : ℕ
sig1_r = 192

abbrev pub sig1_s : ℕ
sig1_s = 264

abbrev pub pek : ℕ
pek = 336

abbrev pub curve : ℕ
curve = 16

abbrev pub x : ℕ
x = 20

abbrev pub y : ℕ
y = 92

abbrev pub uid : ℕ
uid = 164
