-- ===== src/Tests/Everything.antt =====
-- The whole program opened, for a run of it.

unfoldable pub everything : Unit {0}
unfolding estate_ci.Contract.Canonical.write_canonical estate_ci.Contract.Canonical.write_items
    estate_ci.Contract.Canonical.encode_fields estate_ci.Auth.Roles.role_text
    estate_ci.Auth.Roles.parse_role estate_ci.Auth.Roles.is_resource
    estate_ci.Auth.Roles.insert_binding estate_ci.Auth.Roles.sort_bindings
    estate_ci.Auth.Roles.resolve_bindings estate_ci.Auth.Roles.new_resolver
    estate_ci.Auth.Roles.first_role estate_ci.Auth.Roles.role_for
    estate_ci.Contract.Canonical.encode_string estate_ci.Contract.Canonical.is_int64
    estate_ci.Contract.Canonical.insert estate_ci.Contract.Canonical.sort
    estate_ci.Contract.Canonical.write_fields estate_ci.Contract.Crypto.digest_of
    estate_ci.Contract.Crypto.validate_signature estate_ci.Contract.Crypto.verify_signature
    estate_ci.Contract.Dispatch.validate_dispatch estate_ci.Contract.Dispatch.dispatch_json
    estate_ci.Contract.Dispatch.seal_dispatch estate_ci.Contract.Dispatch.verify_dispatch_digest
    estate_ci.Contract.Dispatch.verify_dispatch estate_ci.Contract.DispatchResult.valid_reference
    estate_ci.Contract.DispatchResult.validate_result estate_ci.Contract.DispatchResult.result_json
    estate_ci.Contract.DispatchResult.seal_result
    estate_ci.Contract.DispatchResult.verify_result_digest
    estate_ci.Contract.DispatchResult.verify_result estate_ci.Contract.Document.seal
    estate_ci.Contract.Document.verify_digest estate_ci.Contract.Document.verify
    estate_ci.Contract.Evidence.sorted_approvers
    estate_ci.Contract.Evidence.validate_evidence_fields estate_ci.Contract.Evidence.evidence_json
    estate_ci.Contract.Evidence.verify_evidence estate_ci.Contract.Evidence.insert_text
    estate_ci.Contract.Evidence.sort_texts estate_ci.Contract.Evidence.seal_evidence
    estate_ci.Contract.Models.allowed_operation estate_ci.Contract.Patterns.is_alnum
    estate_ci.Contract.Patterns.fits estate_ci.Contract.Patterns.headed
    estate_ci.Contract.Patterns.split estate_ci.Contract.Patterns.is_sha
    estate_ci.Contract.Patterns.is_digest estate_ci.Contract.Patterns.is_repository
    estate_ci.Contract.Patterns.is_request_id estate_ci.Contract.Patterns.is_email
    estate_ci.Contract.Patterns.is_key_id estate_ci.Contract.Patterns.is_nonce
    estate_ci.Contract.Patterns.is_reason_code estate_ci.Contract.Patterns.is_recovery
    estate_ci.Contract.Patterns.validate_reason estate_ci.Contract.Receipt.receipt_object
    estate_ci.Contract.Receipt.validate_receipt estate_ci.Contract.Receipt.receipt_json
    estate_ci.Contract.Receipt.seal_receipt estate_ci.Contract.Receipt.verify_receipt_digest
    estate_ci.Contract.Receipt.verify_receipt estate_ci.Contract.Request.validate_request
    estate_ci.Contract.Request.request_json estate_ci.Contract.Request.seal_request
    estate_ci.Contract.Request.verify_request_digest estate_ci.Contract.Request.verify_request
    estate_ci.Contract.Snapshot.count_status estate_ci.Contract.Snapshot.valid_word
    estate_ci.Contract.Snapshot.validate_repository
    estate_ci.Contract.Snapshot.validate_repositories estate_ci.Contract.Snapshot.validate_snapshot
    estate_ci.Contract.Snapshot.snapshot_json estate_ci.Contract.Snapshot.verify_snapshot
    estate_ci.Contract.Snapshot.insert_repository estate_ci.Contract.Snapshot.sort_repositories
    estate_ci.Contract.Snapshot.seal_snapshot estate_ci.Go.Base64.char_of
    estate_ci.Go.Base64.value_of estate_ci.Go.Base64.encode estate_ci.Go.Base64.decode
    estate_ci.Go.Hex.is_hex estate_ci.Go.Hex.hex_char estate_ci.Go.Hex.hex
    estate_ci.Go.Strings.trim_space estate_ci.Go.Strings.lower_char estate_ci.Go.Strings.to_lower
    estate_ci.Go.Strings.equal_fold estate_ci.Go.Time.is_leap estate_ci.Go.Time.days_in
    estate_ci.Go.Time.days_from_civil estate_ci.Go.Time.civil_from_days estate_ci.Go.Time.parse_time
    estate_ci.Go.Time.format_date estate_ci.Go.Time.format_time estate_ci.Go.Time.truncate_second
    estate_ci.Operations.Catalog.read_v1 estate_ci.Operations.Catalog.valid_capabilities
    estate_ci.Operations.Catalog.read_v2 estate_ci.Operations.Catalog.read_targets
    estate_ci.Operations.Catalog.new_catalog estate_ci.Operations.Catalog.authorize
    estate_ci.Operations.Catalog.insert_target estate_ci.Operations.Catalog.sort_targets
    estate_ci.Operations.Catalog.repositories estate_ci.Operations.Environment.simulated
    estate_ci.Operations.Evidence.evidence_matches estate_ci.Operations.Evidence.approval_matches
    estate_ci.Operations.Evidence.run_matches estate_ci.Operations.Evidence.supersession_matches
    estate_ci.Operations.Evidence.judge estate_ci.Operations.Evidence.any_approver
    estate_ci.Operations.Evidence.validate_evidence estate_ci.Operations.Exec.pure
    estate_ci.Operations.Exec.raise estate_ci.Operations.Exec.lift estate_ci.Operations.Exec.attempt
    estate_ci.Operations.Exec.sense estate_ci.Operations.Exec.check estate_ci.Operations.Exec.◌>>=◌
    estate_ci.Operations.Identifiers.set_version estate_ci.Operations.Identifiers.uuid_text
    estate_ci.Operations.Identifiers.nonce_text
    estate_ci.Operations.Documents.request_matches_intent
    estate_ci.Operations.Documents.binding_json estate_ci.Operations.Documents.request_of
    estate_ci.Operations.Documents.dispatch_of estate_ci.Operations.Documents.result_of
    estate_ci.Operations.Documents.receipt_of estate_ci.Operations.Documents.result_matches
    estate_ci.Operations.Outbox.trusted_request estate_ci.Operations.Outbox.trusted_dispatch
    estate_ci.Operations.Outbox.trusted_result estate_ci.Operations.Outbox.trusted_receipt
    estate_ci.Operations.Outbox.adopt_receipt estate_ci.Operations.Outbox.settle_receipt
    estate_ci.Operations.Outbox.finalize estate_ci.Operations.Outbox.adopt_result
    estate_ci.Operations.Outbox.settle_result estate_ci.Operations.Outbox.complete
    estate_ci.Operations.Outbox.dispatch_and_complete estate_ci.Operations.Outbox.after_put_dispatch
    estate_ci.Operations.Outbox.prepare estate_ci.Operations.Outbox.resume_result
    estate_ci.Operations.Outbox.resume_dispatch estate_ci.Operations.Outbox.resume
    estate_ci.Operations.Service.resume_same estate_ci.Operations.Service.after_put_request
    estate_ci.Operations.Service.after_reserve estate_ci.Operations.Service.intent_expiry
    estate_ci.Operations.Service.create_new estate_ci.Operations.Service.create_or_resume
    estate_ci.Operations.Service.create estate_ci.Operations.Service.Once.run
    estate_ci.Prelude.int_eq estate_ci.Prelude.decimal estate_ci.Prelude.int_text
    estate_ci.Prelude.all estate_ci.Prelude.any estate_ci.Prelude.all_below estate_ci.Prelude.bytes
    estate_ci.Prelude.text_eq estate_ci.Prelude.text_lt estate_ci.Prelude.strip_prefix
    estate_ci.Prelude.starts_with estate_ci.Prelude.contains_any
    estate_ci.Storage.Memory.latest_snapshot estate_ci.Storage.Memory.list_snapshots
    estate_ci.Storage.Memory.get_evidence estate_ci.Storage.Memory.get_request
    estate_ci.Storage.Memory.get_dispatch estate_ci.Storage.Memory.get_dispatch_result
    estate_ci.Storage.Memory.get_receipt estate_ci.Storage.Memory.find_object
    estate_ci.Storage.Memory.get_receipt_by_object estate_ci.Storage.Memory.insert_receipt
    estate_ci.Storage.Memory.sort_receipts estate_ci.Storage.Memory.list_receipts
    estate_ci.Storage.Memory.reserve_request estate_ci.Storage.Memory.seed_snapshot
    estate_ci.Storage.Memory.seed_evidence estate_ci.Storage.Memory.put_request
    estate_ci.Storage.Memory.put_dispatch estate_ci.Storage.Memory.put_dispatch_result
    estate_ci.Storage.Memory.put_receipt estate_ci.Storage.Repository.validate_reservation
    estate_ci.Storage.Table.lookup estate_ci.Storage.Table.add estate_ci.Storage.Table.put
    estate_ci.Tests.Fixtures.bytes_of estate_ci.Tests.Fixtures.checksum
    estate_ci.Tests.Fixtures.test_role estate_ci.Tests.Fixtures.test_catalog
    estate_ci.Tests.Fixtures.test_evidence estate_ci.Tests.Data.sealed_request
    estate_ci.Tests.Data.first_receipt estate_ci.Tests.Data.test_binding
    estate_ci.Tests.Data.sealed_dispatch estate_ci.Tests.Data.sealed_result
    estate_ci.Tests.Data.sealed_receipt estate_ci.Tests.Data.authorized_target
    estate_ci.Tests.Data.resolver estate_ci.Tests.Data.sealed_snapshot
    estate_ci.Contract.Snapshot.Counts.count estate_ci.Contract.Snapshot.Counts.Rises
everything = tt
