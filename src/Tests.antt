-- ===== src/Tests.antt =====
-- Runs of the model on concrete data, and the instances of the theorems.
mod Fixtures
mod Lawful
mod Data
mod Everything
mod CloudFixtures
mod Parts
mod CloudWitnesses
mod ApiFixtures
mod ApiWitnesses
mod GithubFixtures
mod GithubWitnesses
mod IapFixtures
mod IapWitnesses
mod Runs
mod Witnesses
mod StoreWitnesses
mod AdcWitnesses
