-- ===== src/Pbft/Msg.antt =====
-- The PBFT messages of libconsensus/pbft/Common.h, and the blocks that they carry.
-- Hashes, signatures, node ids and time stamps are the numbers that their bytes stand for. A field
-- of encoded block bytes is the block that it decodes to, and `none` where it decodes to none.
use lab_bcos.Base.{ℕ, ◌+◌, ◌*◌, ◌-◌, ◌^◌, Bool, ◌&&◌, Option, none, some, List}
use lab_bcos.Base.Tests.{◌==◌}
use lab_bcos.Base.Int.{ℤ, negsuc, eqz, max_int64}

-- `BlockHeader`: the fields that consensus reads.
pub record Header : Type 0 where
  pub number : ℤ
  pub hash : ℕ
  pub parent_hash : ℕ
  pub timestamp : ℕ
  pub sealer : ℕ
  pub sealer_list : List ℕ

-- `Block`: its transactions, each by its hash, and its signature list of (index, signature).
pub record Block : Type 0 where
  pub header : Header
  pub transactions : List ℕ
  pub sig_list : List (ℕ × ℕ)

abbrev pub max_idx : ℕ
max_idx = 2 ^ 16 - 1

abbrev pub max_view : ℤ
max_view = max_int64

abbrev pub invalid256 : ℕ
invalid256 = 2 ^ 256 - 1

-- `PBFTMsg`; `SignReq`, `CommitReq` and `ViewChangeReq` add no field to it.
pub record Msg : Type 0 where
  pub height : ℤ
  pub view : ℤ
  pub idx : ℕ
  pub timestamp : ℕ
  pub block_hash : ℕ
  pub sig : ℕ
  pub sig2 : ℕ

-- The default constructor, and what `clear` resets a message to.
unfoldable pub empty_msg : Msg
empty_msg = record {
  height = negsuc 0;
  view = max_view;
  idx = max_idx;
  timestamp = invalid256;
  block_hash = 0;
  sig = 0;
  sig2 = 0;
}

-- `PrepareReq`: a message with the block and the context of its execution.
pub record PrepareReq : Type 0 where
  pub msg : Msg
  pub open msg use *
  pub block : Option Block
  pub exec_context : Option ℕ

unfoldable pub empty_prepare : PrepareReq
empty_prepare = record { msg = empty_msg; block = none; exec_context = none }

-- `clear` on a `PrepareReq` is that of `PBFTMsg`: the block and the context stay.
unfoldable pub clear_prepare : PrepareReq → PrepareReq
clear_prepare p = record p { msg = empty_msg }

-- What signing needs: `dev::sign` under the node's key, `fieldsWithoutBlock`, and `utcTime`.
pub record Signer : Type 0 where
  pub sign_hash : ℕ → ℕ
  pub fields_without_block : ℤ → ℤ → ℕ → ℕ → ℕ
  pub now : ℕ

-- The constructors that fill a message and sign it.
unfoldable pub signed_msg : Signer → ℤ → ℤ → ℕ → ℕ → Msg
signed_msg s height view idx block_hash = record {
  height = height;
  view = view;
  idx = idx;
  timestamp = s.now;
  block_hash = block_hash;
  sig = s.sign_hash block_hash;
  sig2 = s.sign_hash (s.fields_without_block height view idx s.now);
}

-- `PrepareReq(req, keyPair, view, idx)`.
unfoldable pub prepare_again : Signer → PrepareReq → ℤ → ℕ → PrepareReq
prepare_again s req view idx = record {
  msg = signed_msg s req.height view idx req.block_hash;
  block = req.block;
  exec_context = none;
}

-- `PrepareReq(block, keyPair, view, idx)`.
unfoldable pub prepare_block : Signer → Block → ℤ → ℕ → PrepareReq
prepare_block s b view idx = record {
  msg = signed_msg s b.header.number view idx b.header.hash;
  block = some b;
  exec_context = none;
}

-- `PrepareReq(req, sealing, keyPair)`: the request for the block as executed.
unfoldable pub prepare_executed : Signer → PrepareReq → Block → ℕ → PrepareReq
prepare_executed s req b context = record {
  msg = signed_msg s req.height req.view req.idx b.header.hash;
  block = some b;
  exec_context = some context;
}

-- `SignReq(req, keyPair, idx)` and `CommitReq(req, keyPair, idx)`.
unfoldable pub vote_for : Signer → PrepareReq → ℕ → Msg
vote_for s req idx = signed_msg s req.height req.view idx req.block_hash

-- `uniqueKey`: `sig.hex() + sig2.hex()`, two texts of a fixed length (65 bytes each).
unfoldable pub unique_key : Msg → ℕ
unique_key m = m.sig * 2 ^ 520 + m.sig2

-- `PBFTMsg::operator==`, which leaves the index out.
unfoldable pub same_msg : Msg → Msg → Bool
same_msg a b =
    eqz a.height b.height
    && (eqz a.view b.view
        && (a.timestamp == b.timestamp
            && (a.block_hash == b.block_hash && (a.sig == b.sig && a.sig2 == b.sig2))))
