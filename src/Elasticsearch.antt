-- ===== src/Elasticsearch.antt =====
-- Elasticsearch as the cluster uses it: packages/elasticsearch-api and
-- packages/teraslice/lib/cluster/storage/backends/elasticsearch_store.js.
pub mod Bulk
pub mod Pairs
pub mod Backoff
pub mod Queries
pub mod Saving
pub mod Indices
pub mod Tests
