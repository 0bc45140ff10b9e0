-- ===== src/Run/Store/RoundTrip.antt =====
-- What the payload area of a created Run decodes to.
use m_agent.Base.{String, ◌≡◌, Option, none, some, arith, Result, ok}
use m_agent.Errors.{Error}
use m_agent.Run.Records.{RunRecord}
use m_agent.Run.Payload.{
  Field, Field_eq, Serialization, IsLossless, run_input, run_output, run_snapshot, run_history,
  snapshot_metadata, split_run, restore_snapshot, restore_history, run_to_record,
}
use m_agent.Run.Store.{decode_some}
use m_agent.Run.Store.Reads.{overlay}
use m_agent.Run.Store.Lifecycle.{assemble}

module _ (p : Serialization) (lossless : IsLossless p) where
  pub decode_some-encode : (text : String) → decode_some p (some (p.encode text)) ≡ ok (some text)
  unfolding decode_some
  decode_some-encode text = ground (arith, lossless.decode-encode text)

  abbrev pub read : RunRecord → Field → Result Error (Option String)
  read run field = decode_some p (overlay field (split_run p run).1 none)

  -- A record is put together again from its metadata and its encoded payloads.
  pub assemble-split_run :
      (run : RunRecord)
      → assemble p
          (split_run p run).0
          (read run run_input)
          (read run run_output)
          (read run run_snapshot)
          (read run run_history)
        ≡ ok run
  unfolding assemble split_run decode_some restore_snapshot restore_history run_to_record
      snapshot_metadata
  assemble-split_run run =
      grind (arith, lossless.decode-encode, lossless.load-dump_snapshot, lossless.load-dump_history)
