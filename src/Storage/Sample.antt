-- ===== src/Storage/Sample.antt =====
-- A concrete machine for the tests: the k-th call of os.urandom gives the byte 200 + k repeated.
use phantasm.Base.{◌+◌, none, some, Bytes, replicate, length-replicate}
use phantasm.Storage.Machine.{World, Entropy}

abbrev pub counting : Entropy
counting = record {
  urandom = λ k size. replicate size (200 + k);
  length-urandom = λ k size. length-replicate size (200 + k);
}

abbrev pub holding : Bytes → World
holding file = record { container = some file; access_key = none; draws = 0; clock = 1000 }
