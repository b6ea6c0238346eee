-- ===== src/Tests/Parts.antt =====
-- Parts of the program opened, for runs of them.

-- The Cloud Storage repository.
unfoldable pub cloud_storage : Unit {0}
unfolding estate_ci.Storage.Actions.return estate_ci.Storage.Actions.◌>>=◌
    estate_ci.Storage.Objects.is_bucket estate_ci.Storage.Objects.contains
    estate_ci.Storage.Objects.validate_object_address
    estate_ci.Storage.Objects.Gcs.new_gcs_object_store estate_ci.Storage.Objects.Gcs.upload_request
    estate_ci.Storage.Objects.Gcs.download_request estate_ci.Storage.Objects.Gcs.listing_request
    estate_ci.Storage.Objects.Gcs.created estate_ci.Storage.Objects.Gcs.downloaded
    estate_ci.Storage.Objects.Gcs.listed estate_ci.Storage.Objects.Gcs.call
    estate_ci.Storage.Objects.Gcs.create_object estate_ci.Storage.Objects.Gcs.get_object
    estate_ci.Storage.Objects.Gcs.get_objects estate_ci.Storage.Objects.Gcs.list_objects
    estate_ci.Storage.Objects.Gcs.Protocol.query_text
    estate_ci.Storage.Objects.Gcs.Protocol.values_of
    estate_ci.Storage.Objects.Gcs.Protocol.insertion
    estate_ci.Storage.Objects.Gcs.Protocol.retrieval estate_ci.Storage.Cloud.reservation_json
    estate_ci.Storage.Cloud.put_request estate_ci.Storage.Cloud.get_request
    estate_ci.Storage.Cloud.put_dispatch estate_ci.Storage.Cloud.get_dispatch
    estate_ci.Storage.Cloud.put_dispatch_result estate_ci.Storage.Cloud.get_dispatch_result
    estate_ci.Storage.Cloud.reserve_request estate_ci.Storage.Cloud.get_evidence
    estate_ci.Storage.Cloud.put_receipt estate_ci.Storage.Cloud.verify_receipt_at
    estate_ci.Storage.Cloud.get_receipt_by_object estate_ci.Storage.Cloud.get_receipt
    estate_ci.Storage.Cloud.list_receipts estate_ci.Storage.Cloud.list_snapshots
    estate_ci.Storage.Cloud.latest_snapshot estate_ci.Storage.Cloud.Config.new_gcs_repository
    estate_ci.Storage.Cloud.Decoding.at_eof estate_ci.Storage.Cloud.Decoding.strict_json
    estate_ci.Storage.Cloud.Names.request_object estate_ci.Storage.Cloud.Names.dispatch_object
    estate_ci.Storage.Cloud.Names.result_object estate_ci.Storage.Cloud.Names.evidence_object
    estate_ci.Storage.Cloud.Names.replay_request_object
    estate_ci.Storage.Cloud.Names.replay_binding_object
    estate_ci.Storage.Cloud.Names.replay_approval_object
    estate_ci.Storage.Cloud.Names.is_receipt_object estate_ci.Storage.Cloud.Names.is_receipt_of
    estate_ci.Storage.Cloud.Reading.insert_snapshot estate_ci.Storage.Cloud.Reading.sort_snapshots
    estate_ci.Storage.Cloud.Reading.receipt_in estate_ci.Storage.Cloud.Reading.find_receipt
    estate_ci.Storage.Cloud.Reading.read_receipts estate_ci.Storage.Cloud.Reading.snapshot_in
    estate_ci.Storage.Cloud.Reading.read_snapshots estate_ci.Go.Url.path_escape
    estate_ci.Go.Url.query_escape estate_ci.Tests.CloudFixtures.test_held
    estate_ci.Tests.CloudFixtures.objects_under estate_ci.Tests.CloudFixtures.one_object
cloud_storage = tt

-- The API.
unfoldable pub http_api : Unit {0}
unfolding estate_ci.Api.Config.check_config estate_ci.Api.Config.new_server
    estate_ci.Api.Csrf.trim_slash estate_ci.Api.Csrf.valid_csrf estate_ci.Api.Csrf.parse_limit
    estate_ci.Api.Csrf.query_limit estate_ci.Api.Responses.problem
    estate_ci.Api.Responses.write_json estate_ci.Api.Responses.method_not_allowed
    estate_ci.Api.Responses.storage_problem estate_ci.Api.Server.find_route
    estate_ci.Api.Server.handle estate_ci.Api.Server.route estate_ci.Api.Server.authenticate
    estate_ci.Api.Server.serve estate_ci.Api.Server.session estate_ci.Api.Server.latest_estate
    estate_ci.Api.Server.estate_history estate_ci.Api.Server.repositories
    estate_ci.Api.Server.repository_health estate_ci.Api.Server.evidence
    estate_ci.Api.Server.list_operations estate_ci.Api.Server.get_operation
    estate_ci.Api.Server.create_operation estate_ci.Api.Server.find_health
    estate_ci.Api.Server.operation_problem estate_ci.Api.Server.decode_intent
    estate_ci.Tests.ApiFixtures.test_header
http_api = tt

-- The GitHub client.
unfoldable pub github_client : Unit {0}
unfolding estate_ci.Github.Broker.rejected_preparation estate_ci.Github.Broker.valid_run_reference
    estate_ci.Github.Broker.newer_run estate_ci.Github.Broker.baseline_of
    estate_ci.Github.Broker.same_run estate_ci.Github.Broker.prepared
    estate_ci.Github.Broker.prepare_known_run estate_ci.Github.Broker.expected_status
    estate_ci.Github.Broker.find_candidate estate_ci.Github.Broker.prepare
    estate_ci.Github.Broker.dispatch estate_ci.Github.Broker.recover
    estate_ci.Github.Client.before_slash estate_ci.Github.Client.inside_estate
    estate_ci.Github.Client.api_request estate_ci.Github.Client.mutation
    estate_ci.Github.Client.do_request estate_ci.Github.Client.get
    estate_ci.Github.Client.observe_main estate_ci.Github.Client.observe_run
    estate_ci.Github.Client.observe_workflow_runs estate_ci.Github.Client.mutate
    estate_ci.Github.Config.validate_api_base estate_ci.Github.Config.check_app_config
    estate_ci.Github.Recovery.recovery_json estate_ci.Github.Recovery.encode_recovery_state
    estate_ci.Github.Recovery.target_workflow_id estate_ci.Github.Recovery.decode_recovery_state
    estate_ci.Github.Tokens.valid_token estate_ci.Github.Tokens.accept_token
    estate_ci.Github.Tokens.jwt_input estate_ci.Github.Tokens.token_request
    estate_ci.Github.Tokens.sign_jwt estate_ci.Github.Tokens.fetch_token
    estate_ci.Github.Tokens.token estate_ci.Tests.GithubFixtures.provider
github_client = tt

-- The validator of assertions.
unfoldable pub iap_validator : Unit {0}
unfolding estate_ci.Auth.Iap.check_validator estate_ci.Auth.Iap.unix_time
    estate_ci.Auth.Iap.decode_segment estate_ci.Auth.Iap.compact estate_ci.Auth.Iap.read_header
    estate_ci.Auth.Iap.verify_parts estate_ci.Auth.Iap.read_claims estate_ci.Auth.Iap.identity_of
    estate_ci.Auth.Iap.validate estate_ci.Auth.Iap.Keys.max_age
    estate_ci.Auth.Iap.Keys.first_lifetime estate_ci.Auth.Iap.Keys.cache_lifetime
    estate_ci.Auth.Iap.Keys.decode_key estate_ci.Auth.Iap.Keys.decode_keys
    estate_ci.Auth.Iap.Keys.fetched_keys estate_ci.Auth.Iap.Keys.jwks_request
    estate_ci.Auth.Iap.Keys.key_for estate_ci.Go.Strconv.parse_int
iap_validator = tt
